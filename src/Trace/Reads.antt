-- ===== src/Trace/Reads.antt =====
-- traceroute/recv_v4.c: a message of RFC 792, byte by byte, and each step of the reading.
use unpv13e.Base.{
  ℕ, zero, suc, ◌+◌, ◌*◌, ◌%◌, ◌≤◌, ◌<◌, ◌≡◌, ◌⊎◌, ◌∙◌, sym, ap, ap₂, subst, refl, [], ◌∷◌, ◌++◌,
  Bool, true, false, ◌==◌, ltb, ◌&&◌, ◌||◌, if◌then◌else◌, length, length-append, get_elem?, some,
  arith, ℤ,
}
use unpv13e.Trace.{
  Packet, Verdict, next_one, returns, byte, port, quoted_ports, by_type, examine, header_byte,
}

-- The header of a datagram: at least 20 bytes, and as long as its first byte says.
abbrev pub IsHeader : Packet → Type 0
IsHeader h = (20 ≤ length h) × (length h ≡ header_byte 0 h % 16 * 4)

-- The datagram that a message quotes: its header, the two ports and the rest.
abbrev pub quote : Packet → (from0 from1 to0 to1 : ℕ) → Packet → Packet
quote inner from0 from1 to0 to1 tail = inner ++ (from0 ∷ from1 ∷ to0 ∷ to1 ∷ tail)

-- A message with its type, its code and six bytes more.
abbrev pub message : Packet → (type code : ℕ) → (six datagram : Packet) → Packet
message outer type code six datagram = outer ++ (type ∷ code ∷ (six ++ datagram))

pub get_elem?-append_behind :
    (xs ys : Packet) (i : ℕ) → get_elem? (xs ++ ys) (length xs + i) ≡ get_elem? ys i
get_elem?-append_behind [] ys i = ap (get_elem? ys) (omega arith)
get_elem?-append_behind (x ∷ xs) ys i =
    let e : suc (length xs) + i ≡ suc (length xs + i) = omega arith in
    ap (get_elem? (x ∷ (xs ++ ys))) e ∙ get_elem?-append_behind xs ys i

pub get_elem?-append_within :
    (xs ys : Packet) (i : ℕ) → i < length xs → get_elem? (xs ++ ys) i ≡ get_elem? xs i
get_elem?-append_within [] ys i h = absurd (omega arith)
get_elem?-append_within (x ∷ xs) ys zero h = refl
get_elem?-append_within (x ∷ xs) ys (suc i) h = get_elem?-append_within xs ys i (omega arith)

pub byte_lem : (p : Packet) (i b : ℕ) (k : ℕ → Verdict) → get_elem? p i ≡ some b → byte p i k ≡ k b
unfolding byte
byte_lem p i b k e = rw (e, byte) refl

pub port_lem :
    (p : Packet) (i high low : ℕ) (k : ℕ → Verdict)
    → get_elem? p i ≡ some high
    → get_elem? p (suc i) ≡ some low
    → port p i k ≡ k (high * 256 + low)
unfolding port
port_lem p i high low k eh el = byte_lem p i high _ eh ∙ byte_lem p (suc i) low _ el

pub ltb-false : (a b : ℕ) → b ≤ a → ltb a b ≡ false
ltb-false a b h = ground arith

-- The bytes at an offset in a message.
module _ (outer six datagram : Packet) (type code : ℕ) (e6 : length six ≡ 6) where
  pub message-datagram :
      (i : ℕ)
      → get_elem? (message outer type code six datagram) (length outer + (8 + i))
        ≡ get_elem? datagram i
  message-datagram i =
      let e : 8 + i ≡ suc (suc (length six + i)) = omega arith in
      rw e (
        get_elem?-append_behind outer (type ∷ code ∷ (six ++ datagram)) _
        ∙ get_elem?-append_behind six datagram i)

  pub message-type : get_elem? (message outer type code six datagram) (length outer) ≡ some type
  message-type =
      let e : length outer ≡ length outer + 0 = omega arith in
      subst (λ n. get_elem? (message outer type code six datagram) n ≡ some type) (sym e)
        (get_elem?-append_behind outer (type ∷ code ∷ (six ++ datagram)) 0)

  pub message-code : get_elem? (message outer type code six datagram) (length outer + 1) ≡ some code
  message-code = get_elem?-append_behind outer (type ∷ code ∷ (six ++ datagram)) 1

  pub length-message :
      length (message outer type code six datagram) ≡ length outer + (8 + length datagram)
  length-message =
      omega
        (arith, length-append outer (type ∷ code ∷ (six ++ datagram)), length-append six datagram)

pub if_and :
    (a b : Bool) (v w : Verdict)
    → (if a then (if b then v else w) else w) ≡ (if a && b then v else w)
if_and true b v w = refl
if_and false b v w = refl

pub if_false : (b : Bool) (v w : Verdict) → b ≡ false → (if b then v else w) ≡ w
if_false b v w e = rw e refl

pub if_true : (b : Bool) (v w : Verdict) → b ≡ true → (if b then v else w) ≡ v
if_true b v w e = rw e refl

-- The answer to a datagram with the ports of the probe, or with others.
abbrev pub by_ports : (sport dport seq from to : ℕ) → ℤ → Verdict
by_ports sport dport seq from to ret =
    if from == sport && to == (dport + seq) % 65536 then returns ret else next_one

pub quoted_ports_lem :
    (sport dport seq : ℕ) (p : Packet) (at f0 f1 t0 t1 : ℕ) (ret : ℤ)
    → get_elem? p at ≡ some f0
    → get_elem? p (suc at) ≡ some f1
    → get_elem? p (at + 2) ≡ some t0
    → get_elem? p (suc (at + 2)) ≡ some t1
    → quoted_ports sport dport seq p at ret
      ≡ by_ports sport dport seq (f0 * 256 + f1) (t0 * 256 + t1) ret
unfolding quoted_ports
quoted_ports_lem sport dport seq p at f0 f1 t0 t1 ret e0 e1 e2 e3 =
    port_lem p at f0 f1 _ e0 e1
    ∙ ap (λ (v : Verdict). if f0 * 256 + f1 == sport then v else next_one)
        (port_lem p (at + 2) t0 t1 _ e2 e3)
    ∙ if_and (f0 * 256 + f1 == sport) _ _ _

pub IsHeader-first : (h : Packet) → IsHeader h → get_elem? h 0 ≡ some (header_byte 0 h)
unfolding header_byte
IsHeader-first [] h = absurd (omega arith)
IsHeader-first (b ∷ bs) h = refl

pub header_byte-append :
    (old : ℕ) (h ys : Packet) → IsHeader h → header_byte old (h ++ ys) ≡ header_byte 0 h
unfolding header_byte
header_byte-append old [] ys h = absurd (omega arith)
header_byte-append old (b ∷ bs) ys h = refl

-- Behind a header of the length that its first byte gives the type is looked at.
pub examine-by_type :
    (old sport dport seq : ℕ) (p : Packet) (hlen icmplen : ℕ)
    → header_byte old p % 16 * 4 ≡ hlen
    → length p ≡ hlen + icmplen
    → 8 ≤ icmplen
    → examine old sport dport seq p ≡ by_type sport dport seq p hlen icmplen
unfolding examine
examine-by_type old sport dport seq p hlen icmplen e n h =
    if_false (ltb (length p) (header_byte old p % 16 * 4 + 8)) _ _
      (ltb-false (length p) (header_byte old p % 16 * 4 + 8) (omega arith))
    ∙ ap₂ (by_type sport dport seq p) e (omega arith)

-- Time exceeded in transit, or a destination that cannot be reached.
abbrev pub IsUseful : (type code : ℕ) → Type 0
IsUseful type code = ((type ≡ 11) × (code ≡ 0)) ⊎ (type ≡ 3)

pub IsUseful-test :
    (type code : ℕ) → IsUseful type code → ((type == 11 && code == 0) || type == 3) ≡ true
IsUseful-test type code h = ground arith
