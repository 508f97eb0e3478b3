-- ===== src/Trace.antt =====
-- traceroute/recv_v4.c, with traceroute/recv_v6.c in V6: what an answer to a probe means.
pub mod Bounds
pub mod Reads
pub mod Answer
pub mod Loop
pub mod V6
use unpv13e.Base.{
  ℕ, suc, ◌+◌, ◌-◌, ◌*◌, ◌%◌, List, [], ◌∷◌, ◌&&◌, ◌||◌, none, some, ℤ, pos, negsuc, ◌==◌, ltb,
  if◌then◌else◌, length, get_elem?,
}

-- The bytes that recvfrom gave.
abbrev pub Packet : Type 0
Packet = List ℕ

-- What a packet is taken for: a byte behind its end is read, another packet is waited for, or the
-- function returns, in recv_v6 also with a `ret` that was never set.
pub data Verdict : Type 0 where
  overread : Verdict
  next_one : Verdict
  returns : ℤ → Verdict
  returns_unset : Verdict

-- A read of a byte.
unfoldable pub byte : Packet → ℕ → (ℕ → Verdict) → Verdict
byte p i k = elim (get_elem? p i) [ none ↦ overread | some b ↦ k b ]

-- ntohs of two bytes.
unfoldable pub port : Packet → ℕ → (ℕ → Verdict) → Verdict
port p i k = byte p i λ high. byte p (suc i) λ low. k (high * 256 + low)

-- The value for a type and code of ICMP.
unfoldable pub meaning : ℕ → ℕ → ℤ
meaning type code = if type == 11 then negsuc 1 else if code == 3 then negsuc 0 else pos code

-- The ports of the datagram that the message quotes, from its header on.
unfoldable pub quoted_ports : ℕ → ℕ → ℕ → Packet → ℕ → ℤ → Verdict
quoted_ports sport dport seq p at ret = port p at λ from.
    if from == sport
    then (port p (at + 2) λ to. if to == (dport + seq) % 65536 then returns ret else next_one)
    else next_one

-- A message with enough bytes behind its own header: the inner header, its protocol and the ports.
unfoldable pub quoted : ℕ → ℕ → ℕ → Packet → ℕ → ℕ → ℤ → Verdict
quoted sport dport seq p hlen1 icmplen ret =
    if ltb icmplen 28
    then next_one
    else (byte p (hlen1 + 8) λ first.
        let hlen2 = first % 16 * 4 in
        if ltb icmplen (12 + hlen2)
        then next_one
        else (byte p (hlen1 + 17) λ proto.
            if proto == 17
            then quoted_ports sport dport seq p (hlen1 + (8 + hlen2)) ret
            else next_one))

-- Time exceeded in transit, or unreachable.
unfoldable pub by_type : ℕ → ℕ → ℕ → Packet → ℕ → ℕ → Verdict
by_type sport dport seq p hlen1 icmplen = byte p hlen1 λ type. byte p (hlen1 + 1) λ code.
    if (type == 11 && code == 0) || type == 3
    then quoted sport dport seq p hlen1 icmplen (meaning type code)
    else next_one

-- The length of the first header is read before anything is known of the packet: in an empty one it
-- is what the buffer held before.
unfoldable pub header_byte : ℕ → Packet → ℕ
header_byte old [] = old
header_byte old (b ∷ p) = b

unfoldable pub examine : ℕ → ℕ → ℕ → ℕ → Packet → Verdict
examine old sport dport seq p =
    let hlen1 = header_byte old p % 16 * 4 in
    if ltb (length p) (hlen1 + 8)
    then next_one
    else by_type sport dport seq p hlen1 (length p - hlen1)

-- What recvfrom comes to.
pub data Event : Type 0 where
  packet : Packet → Event
  interrupted : Event
  alarm : Event
  fails : Event

pub data Outcome : Type 0 where
  answered : ℤ → List Event → Outcome
  quits : Outcome
  waits : Outcome
  reads_behind : Outcome
  answered_unset : List Event → Outcome

-- The rest of the loop behind a verdict.
abbrev pub after_verdict : List Event → Outcome → Verdict → Outcome
after_verdict es again overread = reads_behind
after_verdict es again next_one = again
after_verdict es again (returns ret) = answered ret es
after_verdict es again returns_unset = answered_unset es

-- The loop, over what is to come; the alarm interrupts recvfrom, and the value is -3.
unfoldable pub recv_v4 : ℕ → ℕ → ℕ → ℕ → List Event → Outcome
recv_v4 old sport dport seq [] = waits
recv_v4 old sport dport seq (packet p ∷ es) =
    after_verdict es (recv_v4 (header_byte old p) sport dport seq es)
      (examine old sport dport seq p)
recv_v4 old sport dport seq (interrupted ∷ es) = recv_v4 old sport dport seq es
recv_v4 old sport dport seq (alarm ∷ es) = answered (negsuc 2) es
recv_v4 old sport dport seq (fails ∷ es) = quits
