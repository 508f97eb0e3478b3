-- ===== src/Tests/Trace.antt =====
-- traceroute/recv_v4.c and traceroute/recv_v6.c at messages of a router and of the destination.
use unpv13e.Base.{
  ℕ, ◌≡◌, refl, inl, inr, List, [], ◌∷◌, ◌++◌, arith, replicate, negsuc, if◌then◌else◌,
}
use unpv13e.Trace.{
  Packet, next_one, byte, port, quoted_ports, quoted, by_type, header_byte, examine, meaning,
  packet, interrupted, alarm, answered, answered_unset, Event, recv_v4,
}
use unpv13e.Trace.Bounds.{Within, examine-Within}
use unpv13e.Trace.Reads.{IsHeader, message}
use unpv13e.Trace.Loop.{
  Answer, bytes, AllPassed, none_left, one_more, by_signal, too_short, other_kind, other_probe,
  recv_v4-first,
}
use unpv13e.Trace.V6.{examine_v6, by_type_v6, quoted_v6, unreachable, recv_v6}
use unpv13e.Trace.V6.Laws.{message_v6, examine_v6-Within}
use unpv13e.Trace.V6.Ends.{is_probe, recv_v6-quoted}

-- Twenty bytes of a header, for UDP.
abbrev ip_header : Packet
ip_header = 69 ∷ (replicate 8 0 ++ (17 ∷ replicate 10 0))

ip_header-IsHeader : IsHeader ip_header
unfolding header_byte
ip_header-IsHeader = (omega arith, omega arith)

-- From a router, for a datagram from port 33000 to the given one.
abbrev time_exceeded : ℕ → ℕ → Answer
time_exceeded to0 to1 = record {
  outer = ip_header;
  type = 11;
  code = 0;
  six = replicate 6 0;
  inner = ip_header;
  from0 = 128;
  from1 = 232;
  to0 = to0;
  to1 = to1;
  tail = 0 ∷ [];
  outer_header = ip_header-IsHeader;
  six_bytes = refl;
  inner_header = ip_header-IsHeader;
  udp = refl;
}

-- An echo reply.
abbrev echo_reply : Packet
echo_reply = message ip_header 0 0 (replicate 6 0) []

abbrev before : List Event
before = interrupted ∷ packet [] ∷ packet echo_reply ∷ packet (bytes (time_exceeded 130 155)) ∷ []

router :
    recv_v4 0 33000 33434 2 (before ++ (packet (bytes (time_exceeded 130 156)) ∷ []))
    ≡ answered (negsuc 1) []
unfolding recv_v4 examine by_type quoted quoted_ports port byte header_byte meaning
router = refl

cut_off : examine 0 33000 33434 2 (message ip_header 11 0 (replicate 6 0) ip_header) ≡ next_one
unfolding examine by_type quoted quoted_ports port byte header_byte meaning
cut_off = refl

examine-Within_example :
    Within (examine 0 33000 33434 2 echo_reply)
    × (examine 0 33000 33434 2 [] ≡ next_one)
    × ((old : ℕ) → examine 0 33000 33434 2 echo_reply ≡ examine old 33000 33434 2 echo_reply)
examine-Within_example = examine-Within 0 33000 33434 2 echo_reply

before-AllPassed : AllPassed 33000 33434 2 before
before-AllPassed = one_more by_signal (
    one_more (too_short [] (omega arith)) (
      one_more
        (other_kind ip_header (replicate 6 0) [] 0 0 echo_reply ip_header-IsHeader refl
          (omega arith) refl)
        (one_more
          (other_probe (time_exceeded 130 155) _ (inl (refl, refl)) (inr (omega arith)) refl)
          none_left)))

recv_v4-first_example :
    (recv_v4 0 33000 33434 2 (before ++ (packet (bytes (time_exceeded 130 156)) ∷ []))
      ≡ answered (negsuc 1) [])
    × (recv_v4 0 33000 33434 2 (before ++ (alarm ∷ [])) ≡ answered (negsuc 2) [])
recv_v4-first_example =
    recv_v4-first 0 33000 33434 2 before [] (time_exceeded 130 156) before-AllPassed
      (inl (refl, refl)) refl refl

-- Forty bytes of a header, for UDP.
abbrev ip6_header : Packet
ip6_header = replicate 6 0 ++ (17 ∷ replicate 33 0)

destination :
    recv_v6 33000 33434 2
      (packet (message_v6 1 4 128 232 130 156 (replicate 6 0) ip6_header []) ∷ [])
    ≡ answered (negsuc 0) []
unfolding recv_v6 examine_v6 by_type_v6 quoted_v6 unreachable port byte
destination = refl

stranger :
    recv_v6 33000 33434 2
      (packet (message_v6 3 0 1 2 3 4 (replicate 6 0) ip6_header []) ∷ interrupted ∷ [])
    ≡ answered_unset (interrupted ∷ [])
unfolding recv_v6 examine_v6 by_type_v6 quoted_v6 unreachable port byte
stranger = refl

recv_v6-quoted_example :
    (recv_v6 33000 33434 2
        (packet (message_v6 1 4 1 2 3 4 (replicate 6 0) ip6_header []) ∷ interrupted ∷ [])
      ≡ (if is_probe 33000 33434 2 17 1 2 3 4
          then answered (negsuc 0) (interrupted ∷ [])
          else recv_v6 33000 33434 2 (interrupted ∷ [])))
    × (recv_v6 33000 33434 2
          (packet (message_v6 3 0 1 2 3 4 (replicate 6 0) ip6_header []) ∷ interrupted ∷ [])
        ≡ answered_unset (interrupted ∷ []))
recv_v6-quoted_example =
    recv_v6-quoted 33000 33434 2 4 17 1 2 3 4 (replicate 6 0) ip6_header [] (interrupted ∷ []) refl
      refl refl

examine_v6-Within_example : Within (examine_v6 33000 33434 2 (replicate 51 3))
examine_v6-Within_example = examine_v6-Within 33000 33434 2 (replicate 51 3)
