-- ===== src/Trace/V6.antt =====
-- traceroute/recv_v6.c: the same for IPv6, where the header of a packet is not given.
pub mod Laws
pub mod Ends
use unpv13e.Base.{
  ℕ, ◌+◌, ◌%◌, List, [], ◌∷◌, ◌&&◌, ℤ, pos, negsuc, ◌==◌, ltb, if◌then◌else◌, length,
}
use unpv13e.Trace.{
  Packet, Verdict, next_one, returns, returns_unset, byte, port, Event, packet, interrupted, alarm,
  fails, Outcome, answered, quits, waits, after_verdict,
}

-- The value for a code of an unreachable destination.
unfoldable pub unreachable : ℕ → ℤ
unreachable code = if code == 4 then negsuc 0 else pos code

-- The quoted datagram: what is done where it is the probe, and where it is not.
unfoldable pub quoted_v6 : ℕ → ℕ → ℕ → Packet → Verdict → Verdict → Verdict
quoted_v6 sport dport seq p ours other =
    if ltb (length p) 52
    then next_one
    else (byte p 14 λ proto.
        if proto == 17
        then (port p 48 λ from.
            if from == sport
            then (port p 50 λ to. if to == (dport + seq) % 65536 then ours else other)
            else other)
        else other)

-- The `break` of an expired hop limit stands behind the test of the ports, not in it.
unfoldable pub by_type_v6 : ℕ → ℕ → ℕ → Packet → ℕ → ℕ → Verdict
by_type_v6 sport dport seq p type code =
    if type == 3 && code == 0
    then quoted_v6 sport dport seq p (returns (negsuc 1)) returns_unset
    else if type == 1
    then quoted_v6 sport dport seq p (returns (unreachable code)) next_one
    else next_one

unfoldable pub examine_v6 : ℕ → ℕ → ℕ → Packet → Verdict
examine_v6 sport dport seq p =
    if ltb (length p) 8
    then next_one
    else (byte p 0 λ type. byte p 1 λ code. by_type_v6 sport dport seq p type code)

unfoldable pub recv_v6 : ℕ → ℕ → ℕ → List Event → Outcome
recv_v6 sport dport seq [] = waits
recv_v6 sport dport seq (packet p ∷ es) =
    after_verdict es (recv_v6 sport dport seq es) (examine_v6 sport dport seq p)
recv_v6 sport dport seq (interrupted ∷ es) = recv_v6 sport dport seq es
recv_v6 sport dport seq (alarm ∷ es) = answered (negsuc 2) es
recv_v6 sport dport seq (fails ∷ es) = quits
