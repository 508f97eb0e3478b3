-- ===== src/Trace/Bounds.antt =====
-- traceroute/recv_v4.c: the bytes that are read lie within the packet.
use unpv13e.Base.{
  ℕ, zero, suc, ◌+◌, ◌*◌, ◌%◌, ◌<◌, ◌≡◌, ◌≢◌, ◌∙◌, sym, refl, [], ◌∷◌, Bool, true, false, ◌==◌, ltb,
  ◌&&◌, ◌||◌, if◌then◌else◌, length, arith, ℤ,
}
use unpv13e.Trace.{
  Packet, Verdict, overread, next_one, returns, byte, port, quoted_ports, quoted, by_type, examine,
  header_byte,
}

-- No byte behind the end of the packet is read.
abbrev pub Within : Verdict → Type 0
Within v = v ≢ overread

pub next_one-Within : Within next_one
next_one-Within e = cc

pub returns-Within : (ret : ℤ) → Within (returns ret)
returns-Within ret e = cc

pub byte-Within :
    (p : Packet) (i : ℕ) (k : ℕ → Verdict)
    → i < length p
    → ((b : ℕ) → Within (k b))
    → Within (byte p i k)
unfolding byte
byte-Within [] i k h f = absurd (omega arith)
byte-Within (b ∷ p) zero k h f = f b
byte-Within (b ∷ p) (suc i) k h f = byte-Within p i k (omega arith) f

pub port-Within :
    (p : Packet) (i : ℕ) (k : ℕ → Verdict)
    → suc i < length p
    → ((b : ℕ) → Within (k b))
    → Within (port p i k)
unfolding port
port-Within p i k h f =
    byte-Within p i _ (omega arith) λ high. byte-Within p (suc i) _ h λ low. f (high * 256 + low)

pub if-Within :
    (b : Bool) (v w : Verdict)
    → (b ≡ true → Within v)
    → (b ≡ false → Within w)
    → Within (if b then v else w)
if-Within true v w f g = f refl
if-Within false v w f g = g refl

quoted_ports-Within :
    (sport dport seq : ℕ) (p : Packet) (at : ℕ) (ret : ℤ)
    → at + 3 < length p
    → Within (quoted_ports sport dport seq p at ret)
unfolding quoted_ports
quoted_ports-Within sport dport seq p at ret h = port-Within p at _ (omega arith) λ from.
    if-Within (from == sport) _ _
      (λ e. port-Within p (at + 2) _ (omega arith) λ to.
        if-Within (to == (dport + seq) % 65536) _ _ (λ e'. returns-Within ret)
          (λ e'. next_one-Within))
      (λ e. next_one-Within)

quoted-Within :
    (sport dport seq : ℕ) (p : Packet) (hlen1 icmplen : ℕ) (ret : ℤ)
    → length p ≡ hlen1 + icmplen
    → Within (quoted sport dport seq p hlen1 icmplen ret)
unfolding quoted
quoted-Within sport dport seq p hlen1 icmplen ret e =
    if-Within (ltb icmplen 28) _ _ (λ c. next_one-Within)
      λ c.
        let long : ¬ (icmplen < 28) = ground arith in
        byte-Within p (hlen1 + 8) _ (omega arith) λ first.
          if-Within (ltb icmplen (12 + first % 16 * 4)) _ _ (λ d. next_one-Within)
            λ d.
              let ports : ¬ (icmplen < 12 + first % 16 * 4) = ground arith in
              byte-Within p (hlen1 + 17) _ (omega arith) λ proto.
                if-Within (proto == 17) _ _
                  (λ u.
                    quoted_ports-Within sport dport seq p (hlen1 + (8 + first % 16 * 4)) ret
                      (omega arith))
                  (λ u. next_one-Within)

examine_rest-Within :
    (old sport dport seq : ℕ) (p : Packet) → Within (examine old sport dport seq p)
unfolding examine by_type
examine_rest-Within old sport dport seq p =
    if-Within (ltb (length p) (header_byte old p % 16 * 4 + 8)) _ _ (λ c. next_one-Within)
      λ c.
        let long : ¬ (length p < header_byte old p % 16 * 4 + 8) = ground arith in
        byte-Within p (header_byte old p % 16 * 4) _ (omega arith) λ type.
          byte-Within p (header_byte old p % 16 * 4 + 1) _ (omega arith) λ code.
            if-Within ((type == 11 && code == 0) || type == 3) _ _
              (λ t. quoted-Within sport dport seq p (header_byte old p % 16 * 4) _ _ (omega arith))
              (λ t. next_one-Within)

empty-next_one : (old sport dport seq : ℕ) → examine old sport dport seq [] ≡ next_one
unfolding examine
empty-next_one old sport dport seq = ground arith

examine-old :
    (old old' sport dport seq : ℕ) (p : Packet)
    → examine old sport dport seq p ≡ examine old' sport dport seq p
examine-old old old' sport dport seq [] =
    empty-next_one old sport dport seq ∙ sym (empty-next_one old' sport dport seq)
examine-old old old' sport dport seq (b ∷ p) = unfold examine header_byte in refl

-- Behind its first byte no byte is read that the packet does not have, whatever the lengths in it say.
-- The first byte is read before the length of the packet is known: for an empty packet it is what the
-- buffer held before. What it was never matters: an empty packet is passed over, and every other
-- packet is taken for the same with whatever the buffer held.
pub examine-Within :
    (old sport dport seq : ℕ) (p : Packet)
    → Within (examine old sport dport seq p)
      × (examine old sport dport seq [] ≡ next_one)
      × ((old' : ℕ) → examine old sport dport seq p ≡ examine old' sport dport seq p)
examine-Within old sport dport seq p = (
  examine_rest-Within old sport dport seq p,
  empty-next_one old sport dport seq,
  λ old'. examine-old old old' sport dport seq p,
)
