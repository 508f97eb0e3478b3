-- ===== src/Trace/Answer.antt =====
-- traceroute/recv_v4.c against the messages of RFC 792, which quote a datagram behind its header.
use unpv13e.Base.{
  ℕ, ◌+◌, ◌*◌, ◌%◌, ◌≡◌, ◌∙◌, sym, ap, ◌∷◌, ◌==◌, ltb, ◌&&◌, ◌||◌, length, length-append, get_elem?,
  some, arith, ℤ,
}
use unpv13e.Trace.Reads.{
  IsHeader, quote, message, get_elem?-append_behind, get_elem?-append_within, byte_lem, ltb-false,
  message-datagram, message-type, message-code, length-message, if_false, if_true, by_ports,
  quoted_ports_lem, IsHeader-first, header_byte-append, examine-by_type, IsUseful, IsUseful-test,
}
use unpv13e.Trace.{Packet, quoted, by_type, examine, header_byte, meaning}

-- A message that is read at its quoted datagram.
module _ (inner tail : Packet) (f0 f1 t0 t1 : ℕ) (header : IsHeader inner) where
  quote-first : get_elem? (quote inner f0 f1 t0 t1 tail) 0 ≡ some (header_byte 0 inner)
  quote-first =
      get_elem?-append_within inner (f0 ∷ f1 ∷ t0 ∷ t1 ∷ tail) 0 (omega arith)
      ∙ IsHeader-first inner header

  quote-port :
      (i : ℕ)
      → get_elem? (quote inner f0 f1 t0 t1 tail) (length inner + i)
        ≡ get_elem? (f0 ∷ f1 ∷ t0 ∷ t1 ∷ tail) i
  quote-port i = get_elem?-append_behind inner (f0 ∷ f1 ∷ t0 ∷ t1 ∷ tail) i

  length-quote : length (quote inner f0 f1 t0 t1 tail) ≡ length inner + (4 + length tail)
  length-quote = omega (arith, length-append inner (f0 ∷ f1 ∷ t0 ∷ t1 ∷ tail))

  module _ (outer six : Packet) (type code : ℕ) (e6 : length six ≡ 6) where
    abbrev pub whole : Packet
    whole = message outer type code six (quote inner f0 f1 t0 t1 tail)

    whole-byte :
        (i at : ℕ)
        → at ≡ length outer + (8 + i)
        → get_elem? whole at ≡ get_elem? (quote inner f0 f1 t0 t1 tail) i
    whole-byte i at e =
        ap (get_elem? whole) e
        ∙ message-datagram outer six (quote inner f0 f1 t0 t1 tail) type code e6 i

    whole-port :
        (i at : ℕ)
        → at ≡ length outer + (8 + length inner) + i
        → get_elem? whole at ≡ get_elem? (f0 ∷ f1 ∷ t0 ∷ t1 ∷ tail) i
    whole-port i at e = whole-byte (length inner + i) at (omega arith) ∙ quote-port i

    quoted-message :
        (sport dport seq : ℕ) (ret : ℤ)
        → get_elem? inner 9 ≡ some 17
        → quoted sport dport seq whole
            (length outer)
            (8 + length (quote inner f0 f1 t0 t1 tail))
            ret
          ≡ by_ports sport dport seq (f0 * 256 + f1) (t0 * 256 + t1) ret
    unfolding quoted
    quoted-message sport dport seq ret udp =
        if_false (ltb (8 + length (quote inner f0 f1 t0 t1 tail)) 28) _ _
          (ltb-false _ 28 (omega (arith, length-quote)))
        ∙ byte_lem whole (length outer + 8) (header_byte 0 inner) _
            (whole-byte 0 _ (omega arith) ∙ quote-first)
        ∙ if_false
            (ltb (8 + length (quote inner f0 f1 t0 t1 tail)) (12 + header_byte 0 inner % 16 * 4)) _
            _ (ltb-false _ _ (omega (arith, length-quote)))
        ∙ byte_lem whole (length outer + 17) 17 _
            (whole-byte 9 _ (omega arith) ∙ get_elem?-append_within inner _ 9 (omega arith) ∙ udp)
        ∙ quoted_ports_lem sport dport seq whole _ f0 f1 t0 t1 ret (whole-port 0 _ (omega arith))
            (whole-port 1 _ (omega arith)) (whole-port 2 _ (omega arith))
            (whole-port 3 _ (omega arith))

    by_type-message :
        (sport dport seq : ℕ)
        → get_elem? inner 9 ≡ some 17
        → IsUseful type code
        → by_type sport dport seq whole (length outer) (8 + length (quote inner f0 f1 t0 t1 tail))
          ≡ by_ports sport dport seq (f0 * 256 + f1) (t0 * 256 + t1) (meaning type code)
    unfolding by_type
    by_type-message sport dport seq udp kind =
        byte_lem whole (length outer) type _
          (message-type outer six (quote inner f0 f1 t0 t1 tail) type code e6)
        ∙ byte_lem whole (length outer + 1) code _
            (message-code outer six (quote inner f0 f1 t0 t1 tail) type code e6)
        ∙ if_true ((type == 11 && code == 0) || type == 3) _ _ (IsUseful-test type code kind)
        ∙ quoted-message sport dport seq (meaning type code) udp

    pub examine-message :
        (old sport dport seq : ℕ)
        → IsHeader outer
        → get_elem? inner 9 ≡ some 17
        → IsUseful type code
        → examine old sport dport seq whole
          ≡ by_ports sport dport seq (f0 * 256 + f1) (t0 * 256 + t1) (meaning type code)
    examine-message old sport dport seq first udp kind =
        examine-by_type old sport dport seq whole (length outer) _
          (ap (λ (b : ℕ). b % 16 * 4) (header_byte-append old outer _ first) ∙ sym first.1)
          (length-message outer six (quote inner f0 f1 t0 t1 tail) type code e6) (omega arith)
        ∙ by_type-message sport dport seq udp kind
