-- ===== src/Trace/V6/Ends.antt =====
-- traceroute/recv_v6.c: how a message that quotes a datagram ends the wait, or does not.
use unpv13e.Base.{
  ℕ, ◌+◌, ◌*◌, ◌%◌, ◌≡◌, ◌∙◌, ap, refl, List, ◌∷◌, Bool, true, false, ◌&&◌, ◌==◌, if◌then◌else◌,
  length, get_elem?, some, negsuc, pos,
}
use unpv13e.Trace.{
  Packet, Verdict, next_one, returns, returns_unset, Event, packet, Outcome, answered,
  answered_unset, after_verdict,
}
use unpv13e.Trace.V6.{unreachable, by_type_v6, examine_v6, recv_v6}
use unpv13e.Trace.V6.Laws.{message_v6, examine_v6-by_type, quoted_v6-message}

-- UDP, from the port of this program to the port of this probe.
abbrev pub is_probe : (sport dport seq proto f0 f1 t0 t1 : ℕ) → Bool
is_probe sport dport seq proto f0 f1 t0 t1 =
    proto == 17 && (f0 * 256 + f1 == sport && t0 * 256 + t1 == (dport + seq) % 65536)

after_verdict-if :
    (es : List Event) (again : Outcome) (b : Bool) (v w : Verdict)
    → after_verdict es again (if b then v else w)
      ≡ (if b then after_verdict es again v else after_verdict es again w)
after_verdict-if es again true v w = refl
after_verdict-if es again false v w = refl

-- One message decides as its type says: `ours` where it quotes the probe, and `other` where not.
decided :
    (sport dport seq : ℕ) (p : Packet) (ours other : Verdict) (b : Bool) (es : List Event)
    → examine_v6 sport dport seq p ≡ (if b then ours else other)
    → recv_v6 sport dport seq (packet p ∷ es) ≡ (
        if b
        then after_verdict es (recv_v6 sport dport seq es) ours
        else after_verdict es (recv_v6 sport dport seq es) other)
unfolding recv_v6
decided sport dport seq p ours other b es e =
    ap (after_verdict es (recv_v6 sport dport seq es)) e ∙ after_verdict-if es _ b ours other

-- For a message that quotes a datagram behind a header of 40 bytes: an unreachable destination ends
-- the wait exactly where the datagram is this probe, with -1 for the port and the code of the
-- message else; an expired hop limit gives -2 for this probe, and for every other datagram the
-- function returns as well, with a value that was never set.
pub recv_v6-quoted :
    (sport dport seq code proto f0 f1 t0 t1 : ℕ) (six inner tail : Packet) (es : List Event)
    → length six ≡ 6
    → length inner ≡ 40
    → get_elem? inner 6 ≡ some proto
    → (recv_v6 sport dport seq (packet (message_v6 1 code f0 f1 t0 t1 six inner tail) ∷ es) ≡ (
        if is_probe sport dport seq proto f0 f1 t0 t1
        then answered (if code == 4 then negsuc 0 else pos code) es
        else recv_v6 sport dport seq es))
      × (recv_v6 sport dport seq (packet (message_v6 3 0 f0 f1 t0 t1 six inner tail) ∷ es) ≡ (
          if is_probe sport dport seq proto f0 f1 t0 t1
          then answered (negsuc 1) es
          else answered_unset es))
unfolding by_type_v6 unreachable
recv_v6-quoted sport dport seq code proto f0 f1 t0 t1 six inner tail es e6 e40 next = (
  decided sport dport seq _ _ _ _ es (
      examine_v6-by_type 1 code proto f0 f1 t0 t1 six inner tail e6 e40 sport dport seq
      ∙ quoted_v6-message 1 code proto f0 f1 t0 t1 six inner tail e6 e40 sport dport seq
          (returns (unreachable code)) next_one next),
  decided sport dport seq _ _ _ _ es (
      examine_v6-by_type 3 0 proto f0 f1 t0 t1 six inner tail e6 e40 sport dport seq
      ∙ quoted_v6-message 3 0 proto f0 f1 t0 t1 six inner tail e6 e40 sport dport seq
          (returns (negsuc 1)) returns_unset next),
)
