-- ===== src/Trace/Loop.antt =====
-- traceroute/recv_v4.c: the loop, over messages that answer this probe, others, or none.
use unpv13e.Base.{
  ℕ, ◌+◌, ◌*◌, ◌%◌, ◌<◌, ◌≡◌, ◌≢◌, ◌⊎◌, ◌∙◌, ap, sym, refl, List, [], ◌∷◌, ◌++◌, ◌==◌, ltb, ◌&&◌,
  ◌||◌, if◌then◌else◌, false, length, get_elem?, some, arith, pos, negsuc,
}
use unpv13e.Trace.{
  Packet, next_one, by_type, examine, header_byte, meaning, Event, packet, interrupted, alarm,
  fails, answered, recv_v4, after_verdict,
}
use unpv13e.Trace.Reads.{
  IsHeader, quote, message, byte_lem, if_false, if_true, message-type, message-code, length-message,
  header_byte-append, examine-by_type, IsUseful, by_ports,
}
use unpv13e.Trace.Answer.{examine-message}

-- A message that quotes a UDP datagram.
pub record Answer : Type 0 where
  pub outer : Packet
  pub type : ℕ
  pub code : ℕ
  pub six : Packet
  pub inner : Packet
  pub from0 : ℕ
  pub from1 : ℕ
  pub to0 : ℕ
  pub to1 : ℕ
  pub tail : Packet
  pub outer_header : IsHeader outer
  pub six_bytes : length six ≡ 6
  pub inner_header : IsHeader inner
  pub udp : get_elem? inner 9 ≡ some 17

abbrev pub bytes : Answer → Packet
bytes a = message a.outer a.type a.code a.six (quote a.inner a.from0 a.from1 a.to0 a.to1 a.tail)

abbrev pub from_port : Answer → ℕ
from_port a = a.from0 * 256 + a.from1

abbrev pub to_port : Answer → ℕ
to_port a = a.to0 * 256 + a.to1

-- What comes and says nothing of the probe: an interrupt, too few bytes, a message of another kind,
-- and one that quotes a datagram with other ports.
pub data Passed (sport dport seq : ℕ) : Event → Type 0 where
  by_signal : Passed sport dport seq interrupted
  too_short : (p : Packet) → length p < 8 → Passed sport dport seq (packet p)
  other_kind :
      (outer six datagram : Packet) (type code : ℕ) (p : Packet)
      → IsHeader outer
      → length six ≡ 6
      → ¬ IsUseful type code
      → p ≡ message outer type code six datagram
      → Passed sport dport seq (packet p)
  other_probe :
      (a : Answer) (p : Packet)
      → IsUseful a.type a.code
      → (from_port a ≢ sport) ⊎ (to_port a ≢ (dport + seq) % 65536)
      → p ≡ bytes a
      → Passed sport dport seq (packet p)

pub data AllPassed (sport dport seq : ℕ) : List Event → Type 0 where
  none_left : AllPassed sport dport seq []
  one_more :
      {e : Event} {rest : List Event}
      → Passed sport dport seq e
      → AllPassed sport dport seq rest
      → AllPassed sport dport seq (e ∷ rest)

IsUseful-not :
    (type code : ℕ) → ¬ IsUseful type code → ((type == 11 && code == 0) || type == 3) ≡ false
IsUseful-not type code h = ground arith

examine-short :
    (old sport dport seq : ℕ) (p : Packet) → length p < 8 → examine old sport dport seq p ≡ next_one
unfolding examine
examine-short old sport dport seq p h =
    if_true (ltb (length p) (header_byte old p % 16 * 4 + 8)) _ _ (ground arith)

examine-other_kind :
    (old sport dport seq : ℕ) (outer six datagram : Packet) (type code : ℕ)
    → IsHeader outer
    → length six ≡ 6
    → ¬ IsUseful type code
    → examine old sport dport seq (message outer type code six datagram) ≡ next_one
unfolding by_type
examine-other_kind old sport dport seq outer six datagram type code h e6 other =
    examine-by_type old sport dport seq _ (length outer) _
      (ap (λ (b : ℕ). b % 16 * 4) (header_byte-append old outer _ h) ∙ sym h.1)
      (length-message outer six datagram type code e6) (omega arith)
    ∙ byte_lem _ (length outer) type _ (message-type outer six datagram type code e6)
    ∙ byte_lem _ (length outer + 1) code _ (message-code outer six datagram type code e6)
    ∙ if_false ((type == 11 && code == 0) || type == 3) _ _ (IsUseful-not type code other)

examine-bytes :
    (old sport dport seq : ℕ) (a : Answer)
    → IsUseful a.type a.code
    → examine old sport dport seq (bytes a)
      ≡ by_ports sport dport seq (from_port a) (to_port a) (meaning a.type a.code)
examine-bytes old sport dport seq a kind =
    examine-message a.inner a.tail a.from0 a.from1 a.to0 a.to1 a.inner_header a.outer a.six a.type
      a.code a.six_bytes old sport dport seq a.outer_header a.udp kind

examine-other_probe :
    (old sport dport seq : ℕ) (a : Answer)
    → IsUseful a.type a.code
    → (from_port a ≢ sport) ⊎ (to_port a ≢ (dport + seq) % 65536)
    → examine old sport dport seq (bytes a) ≡ next_one
examine-other_probe old sport dport seq a kind ne =
    examine-bytes old sport dport seq a kind
    ∙ if_false (from_port a == sport && to_port a == (dport + seq) % 65536) _ _ (ground arith)

Passed-next_one :
    {sport dport seq : ℕ} (old : ℕ) (p : Packet)
    → Passed sport dport seq (packet p)
    → examine old sport dport seq p ≡ next_one
Passed-next_one {sport} {dport} {seq} old p (too_short q h) = examine-short old sport dport seq p h
Passed-next_one {sport} {dport} {seq} old p
      (other_kind outer six datagram type code q h e6 other e) =
    rw e (examine-other_kind old sport dport seq outer six datagram type code h e6 other)
Passed-next_one {sport} {dport} {seq} old p (other_probe a q kind ne e) =
    rw e (examine-other_probe old sport dport seq a kind ne)

-- Such an event leaves the loop where it was, but for the first byte of the buffer.
Passed-again :
    {sport dport seq : ℕ} {e : Event} (old : ℕ) (es : List Event)
    → Passed sport dport seq e
    → (old' : ℕ) × (recv_v4 old sport dport seq (e ∷ es) ≡ recv_v4 old' sport dport seq es)
unfolding recv_v4
Passed-again {e = packet p} old es h = (header_byte old p, rw (Passed-next_one old p h) refl)
Passed-again {e = interrupted} old es h = (old, refl)
Passed-again {e = alarm} old es h = elim h [ ]
Passed-again {e = fails} old es h = elim h [ ]

AllPassed-again :
    {sport dport seq : ℕ} {before : List Event} (old : ℕ) (es : List Event)
    → AllPassed sport dport seq before
    → (old' : ℕ) × (recv_v4 old sport dport seq (before ++ es) ≡ recv_v4 old' sport dport seq es)
AllPassed-again old es none_left = (old, refl)
AllPassed-again old es (one_more {rest = rest} h hs) =
    let now = Passed-again old (rest ++ es) h in
    let later = AllPassed-again now.0 es hs in (later.0, now.1 ∙ later.1)

recv_v4-ours :
    (old sport dport seq : ℕ) (a : Answer) (es : List Event)
    → IsUseful a.type a.code
    → from_port a ≡ sport
    → to_port a ≡ (dport + seq) % 65536
    → recv_v4 old sport dport seq (packet (bytes a) ∷ es) ≡ answered (meaning a.type a.code) es
unfolding recv_v4
recv_v4-ours old sport dport seq a es kind from to =
    ap (after_verdict es (recv_v4 (header_byte old (bytes a)) sport dport seq es)) (
      examine-bytes old sport dport seq a kind
      ∙ if_true (from_port a == sport && to_port a == (dport + seq) % 65536) _ _ (ground arith))

-- After interrupts, packets too short, ICMP messages of other kinds and messages that quote other
-- ports, in any number and order: the first message of a useful kind that quotes a datagram with
-- the ports of this probe ends the wait, with -2 where its type is that of an expired time to live,
-- -1 where the port was not reachable and the code of the message else; and where the alarm comes
-- first, the result is -3.
pub recv_v4-first :
    (old sport dport seq : ℕ) (before es : List Event) (a : Answer)
    → AllPassed sport dport seq before
    → IsUseful a.type a.code
    → from_port a ≡ sport
    → to_port a ≡ (dport + seq) % 65536
    → (recv_v4 old sport dport seq (before ++ (packet (bytes a) ∷ es))
        ≡ answered
            (if a.type == 11 then negsuc 1 else if a.code == 3 then negsuc 0 else pos a.code)
            es)
      × (recv_v4 old sport dport seq (before ++ (alarm ∷ es)) ≡ answered (negsuc 2) es)
unfolding recv_v4 meaning
recv_v4-first old sport dport seq before es a passed kind from to =
    let here = AllPassed-again old (packet (bytes a) ∷ es) passed in
    let timed = AllPassed-again old (alarm ∷ es) passed in
    (here.1 ∙ recv_v4-ours here.0 sport dport seq a es kind from to, timed.1)
