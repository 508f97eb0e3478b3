-- ===== src/Trace/V6/Laws.antt =====
-- traceroute/recv_v6.c: the bytes that are read, and what a message that quotes a datagram does.
use unpv13e.Base.{
  ℕ, ◌+◌, ◌*◌, ◌%◌, ◌≤◌, ◌<◌, ◌≡◌, ◌∙◌, sym, ap, [], length-append, refl, ◌∷◌, ◌&&◌, ◌==◌, ltb,
  if◌then◌else◌, length, get_elem?, some, arith, negsuc,
}
use unpv13e.Trace.{Packet, Verdict, returns_unset}
use unpv13e.Trace.V6.{unreachable, quoted_v6, by_type_v6, examine_v6}
use unpv13e.Trace.Bounds.{
  Within, next_one-Within, returns-Within, byte-Within, port-Within, if-Within,
}
use unpv13e.Trace.Reads.{
  message-datagram, get_elem?-append_behind, get_elem?-append_within, byte_lem, port_lem, ltb-false,
  if_and, if_false, quote, message, length-message,
}

returns_unset-Within : Within returns_unset
returns_unset-Within e = cc

quoted_v6-Within :
    (sport dport seq : ℕ) (p : Packet) (ours other : Verdict)
    → Within ours
    → Within other
    → Within (quoted_v6 sport dport seq p ours other)
unfolding quoted_v6
quoted_v6-Within sport dport seq p ours other h k =
    if-Within (ltb (length p) 52) _ _ (λ c. next_one-Within)
      λ c.
        let long : ¬ (length p < 52) = ground arith in
        byte-Within p 14 _ (omega arith) λ proto.
          if-Within (proto == 17) _ _
            (λ u. port-Within p 48 _ (omega arith) λ from.
              if-Within (from == sport) _ _
                (λ e.
                  port-Within p 50 _ (omega arith)
                    λ to. if-Within (to == (dport + seq) % 65536) _ _ (λ e'. h) (λ e'. k))
                (λ e. k))
            (λ u. k)

-- Whatever packet comes, recv_v6 looks at no byte but those that recvfrom gave.
pub examine_v6-Within : (sport dport seq : ℕ) (p : Packet) → Within (examine_v6 sport dport seq p)
unfolding examine_v6 by_type_v6
examine_v6-Within sport dport seq p =
    if-Within (ltb (length p) 8) _ _ (λ c. next_one-Within)
      λ c.
        let long : ¬ (length p < 8) = ground arith in
        byte-Within p 0 _ (omega arith) λ type. byte-Within p 1 _ (omega arith) λ code.
          if-Within (type == 3 && code == 0) _ _
            (λ t.
              quoted_v6-Within sport dport seq p _ _ (returns-Within (negsuc 1))
                returns_unset-Within)
            (λ t.
              if-Within (type == 1) _ _
                (λ u.
                  quoted_v6-Within sport dport seq p _ _ (returns-Within (unreachable code))
                    next_one-Within)
                (λ u. next_one-Within))

quoted_ours :
    (sport dport seq : ℕ) (p : Packet) (ours other : Verdict) (proto f0 f1 t0 t1 : ℕ)
    → 52 ≤ length p
    → get_elem? p 14 ≡ some proto
    → get_elem? p 48 ≡ some f0
    → get_elem? p 49 ≡ some f1
    → get_elem? p 50 ≡ some t0
    → get_elem? p 51 ≡ some t1
    → quoted_v6 sport dport seq p ours other ≡ (
        if proto == 17 && (f0 * 256 + f1 == sport && t0 * 256 + t1 == (dport + seq) % 65536)
        then ours
        else other)
unfolding quoted_v6
quoted_ours sport dport seq p ours other proto f0 f1 t0 t1 h e14 e48 e49 e50 e51 =
    if_false (ltb (length p) 52) _ _ (ltb-false (length p) 52 h)
    ∙ byte_lem p 14 proto _ e14
    ∙ ap (λ (v : Verdict). if proto == 17 then v else other)
        (port_lem p 48 f0 f1 _ e48 e49
          ∙ ap (λ (v : Verdict). if f0 * 256 + f1 == sport then v else other)
              (port_lem p 50 t0 t1 _ e50 e51)
          ∙ if_and (f0 * 256 + f1 == sport) (t0 * 256 + t1 == (dport + seq) % 65536) ours other)
    ∙ if_and (proto == 17) _ ours other

-- A message that comes with no header of its own, and quotes a datagram.
abbrev pub message_v6 : (type code f0 f1 t0 t1 : ℕ) → (six inner tail : Packet) → Packet
message_v6 type code f0 f1 t0 t1 six inner tail =
    message [] type code six (quote inner f0 f1 t0 t1 tail)

-- The bytes of a message that quotes a datagram behind its header of 40 bytes.
module _ (type code proto f0 f1 t0 t1 : ℕ) (six inner tail : Packet) (e6 : length six ≡ 6)
    (e40 : length inner ≡ 40) where
  abbrev pub whole : Packet
  whole = message_v6 type code f0 f1 t0 t1 six inner tail

  message_v6-port :
      (i : ℕ) → get_elem? whole (8 + (40 + i)) ≡ get_elem? (f0 ∷ f1 ∷ t0 ∷ t1 ∷ tail) i
  message_v6-port i =
      ap (get_elem? whole) (omega arith)
      ∙ message-datagram [] six (quote inner f0 f1 t0 t1 tail) type code e6 (40 + i)
      ∙ ap (λ (n : ℕ). get_elem? (quote inner f0 f1 t0 t1 tail) (n + i)) (sym e40)
      ∙ get_elem?-append_behind inner (f0 ∷ f1 ∷ t0 ∷ t1 ∷ tail) i

  length-message_v6 : length whole ≡ 52 + length tail
  length-message_v6 = omega (
    arith,
    length-message [] six (quote inner f0 f1 t0 t1 tail) type code e6,
    length-append inner (f0 ∷ f1 ∷ t0 ∷ t1 ∷ tail),
  )

  message_v6-proto : get_elem? inner 6 ≡ some proto → get_elem? whole 14 ≡ some proto
  message_v6-proto e =
      message-datagram [] six (quote inner f0 f1 t0 t1 tail) type code e6 6
      ∙ get_elem?-append_within inner (f0 ∷ f1 ∷ t0 ∷ t1 ∷ tail) 6 (omega arith)
      ∙ e

  pub quoted_v6-message :
      (sport dport seq : ℕ) (ours other : Verdict)
      → get_elem? inner 6 ≡ some proto
      → quoted_v6 sport dport seq whole ours other ≡ (
          if proto == 17 && (f0 * 256 + f1 == sport && t0 * 256 + t1 == (dport + seq) % 65536)
          then ours
          else other)
  quoted_v6-message sport dport seq ours other e =
      quoted_ours sport dport seq whole ours other proto f0 f1 t0 t1
        (omega (arith, length-message_v6)) (message_v6-proto e) (message_v6-port 0)
        (message_v6-port 1) (message_v6-port 2) (message_v6-port 3)

  pub examine_v6-by_type :
      (sport dport seq : ℕ)
      → examine_v6 sport dport seq whole ≡ by_type_v6 sport dport seq whole type code
  unfolding examine_v6
  examine_v6-by_type sport dport seq =
      if_false (ltb (length whole) 8) _ _ (ltb-false _ 8 (omega (arith, length-message_v6)))
      ∙ byte_lem whole 0 type _ refl
      ∙ byte_lem whole 1 code _ refl
