-- ===== src/Rtt/Exchange/Laws.antt =====
-- The exchange against what a caller needs to know of it: which events end it, and how.
use unpv13e.Base.{
  ℕ, zero, suc, ◌+◌, ◌-◌, ◌≤◌, ◌<◌, ◌%◌, ◌^◌, ◌≡◌, ◌≢◌, refl, sym, ◌∙◌, subst, List, [], ◌∷◌, true,
  false, ◌||◌, not, ltb, ◌==◌, if◌then◌else◌, arith, Bool-cases, inl, inr,
}
use unpv13e.Rtt.Float.{Floats}
use unpv13e.Rtt.{maxnrexmt, Timeval, rtt_ts, rtt_newpack, rtt_start}
use unpv13e.Rtt.Laws.{rtt_timeout-more, rtt_timeout-last}
use unpv13e.Rtt.Exchange.{
  hdr_size, Send, Event, datagram, alarm, recv_failed, Output, sendmsg, set_alarm, Client, Outcome,
  replied, gave_up, err_sys, waiting, on_alarm, receive, prepare, dg_send_recv,
}

-- How an exchange ends, with no timer and no state: `left` retransmissions are left.
pub data Verdict : Type 0 where
  reply : ℕ → Verdict
  no_response broken pending : Verdict

pub verdict : ℕ → ℕ → List Event → Verdict
verdict left seq [] = pending
verdict left seq (recv_failed ∷ es) = broken
verdict zero seq (alarm s ∷ es) = no_response
verdict (suc left) seq (alarm s ∷ es) = if s.sent then verdict left seq es else broken
verdict left seq (datagram n seq' ts now ∷ es) =
    if ltb n hdr_size || not (seq' == seq) then verdict left seq es else reply (n - hdr_size)

abbrev pub alarms : List Event → ℕ
alarms [] = 0
alarms (alarm s ∷ es) = suc (alarms es)
alarms (_ ∷ es) = alarms es

verdict-ne-pending :
    (left seq : ℕ) (es : List Event) → left < alarms es → verdict left seq es ≢ pending
unfolding verdict
verdict-ne-pending left seq [] h = absurd (omega arith)
verdict-ne-pending left seq (recv_failed ∷ es) h = λ e. cc
verdict-ne-pending zero seq (alarm s ∷ es) h = λ e. cc
verdict-ne-pending (suc left) seq (alarm s ∷ es) h =
    ground (arith, verdict-ne-pending left seq es (omega arith))
verdict-ne-pending left seq (datagram n seq' ts now ∷ es) h =
    ground (arith, verdict-ne-pending left seq es h)

-- The datagrams in an output, and the sequence numbers that they carry.
abbrev pub sends : List Output → ℕ
sends [] = 0
sends (sendmsg seq ts ∷ out) = suc (sends out)
sends (set_alarm n ∷ out) = sends out

abbrev pub AllSeq : ℕ → List Output → Type 0
AllSeq seq [] = Unit {0}
AllSeq seq (sendmsg s ts ∷ out) = (s ≡ seq) × AllSeq seq out
AllSeq seq (set_alarm n ∷ out) = AllSeq seq out

module _ (f : Floats) where
  abbrev pub verdict_of : Outcome f → Verdict
  verdict_of (replied n c out) = reply n
  verdict_of (gave_up c out) = no_response
  verdict_of (err_sys out) = broken
  verdict_of (waiting c out) = pending

  abbrev pub output : Outcome f → List Output
  output (replied n c out) = out
  output (gave_up c out) = out
  output (err_sys out) = out
  output (waiting c out) = out

  -- The client that the outcome leaves starts anew after a timeout, and keeps its estimates else.
  abbrev pub Leaves : ℕ → Outcome f → Type 0
  Leaves seq (replied n c out) = (c.seq ≡ seq) × (c.rttinit ≡ true)
  Leaves seq (gave_up c out) = (c.seq ≡ seq) × (c.rttinit ≡ false)
  Leaves seq (err_sys out) = Unit {0}
  Leaves seq (waiting c out) = (c.seq ≡ seq) × (c.rttinit ≡ true)

  -- In the middle of an exchange `left` retransmissions are left.
  record Midway (left : ℕ) (c : Client f) (out : List Output) : Type 0 where
    count : c.info.nrexmt + left ≡ maxnrexmt
    sent : sends out ≡ c.info.nrexmt + 1
    same : AllSeq c.seq out
    init : c.rttinit ≡ true

  pub record Ended (left seq : ℕ) (es : List Event) (o : Outcome f) : Type 0 where
    pub verdict_is : verdict_of o ≡ verdict left seq es
    pub few : sends (output o) ≤ maxnrexmt + 1
    pub same : AllSeq seq (output o)
    pub leaves : Leaves seq o

  on_alarm-last :
      (s : Send) (es : List Event) (c : Client f) (out : List Output)
      → Midway 0 c out
      → Ended 0 c.seq (alarm s ∷ es) (on_alarm f s c out (receive f es))
  unfolding on_alarm verdict
  on_alarm-last s es c out m =
      let (q, e) = rtt_timeout-last f c.info (omega (arith, m.count)) in
      rw e record {
        verdict_is = refl;
        few = omega (arith, m.count, m.sent);
        same = m.same;
        leaves = (refl, refl);
      }

  on_alarm-more :
      (s : Send) (es : List Event) (left : ℕ) (c : Client f) (out : List Output)
      → Midway (suc left) c out
      → ((c' : Client f) (out' : List Output)
          → c'.seq ≡ c.seq
          → Midway left c' out'
          → Ended left c.seq es (receive f es c' out'))
      → Ended (suc left) c.seq (alarm s ∷ es) (on_alarm f s c out (receive f es))
  unfolding on_alarm verdict
  on_alarm-more s es left c out m ih =
      let (q, e, count, _) = rtt_timeout-more f c.info (omega (arith, m.count)) in
      elim (Bool-cases s.sent) [
        | inl ok ↦
            let c' : Client f = record c { info = q } in
            let r : Ended left c.seq es (
                receive f es c'
                  (set_alarm (rtt_start f q) ∷ sendmsg c.seq (rtt_ts f q s.now) ∷ out)) =
              ih c' _ refl (record {
                count = omega (arith, m.count, count);
                sent = omega (arith, m.sent, count);
                same = (refl, m.same);
                init = m.init;
              }) in
            rw (e, ok)
              record { verdict_is = r.verdict_is; few = r.few; same = r.same; leaves = r.leaves }
        | inr fail ↦
            rw (e, fail)
              record {
                verdict_is = refl;
                few = omega (arith, m.count, m.sent);
                same = (refl, m.same);
                leaves = tt;
              }
      ]

  receive-Ended :
      (es : List Event) (left : ℕ) (c : Client f) (out : List Output)
      → Midway left c out
      → Ended left c.seq es (receive f es c out)
  unfolding receive verdict
  receive-Ended [] left c out m = record {
    verdict_is = refl;
    few = omega (arith, m.count, m.sent);
    same = m.same;
    leaves = (refl, m.init);
  }
  receive-Ended (recv_failed ∷ es) left c out m = record {
    verdict_is = refl;
    few = omega (arith, m.count, m.sent);
    same = m.same;
    leaves = tt;
  }
  receive-Ended (alarm s ∷ es) zero c out m = on_alarm-last s es c out m
  receive-Ended (alarm s ∷ es) (suc left) c out m =
      on_alarm-more s es left c out m (λ c' out' same m'.
        subst (λ k. Ended left k es (receive f es c' out')) same (receive-Ended es left c' out' m'))
  receive-Ended (datagram n seq' ts now ∷ es) left c out m =
      let ih : Ended left c.seq es (receive f es c out) = receive-Ended es left c out m in
      elim (Bool-cases (ltb n hdr_size || not (seq' == c.seq))) [
        | inl skip ↦ rw skip record {
          verdict_is = rw skip ih.verdict_is;
          few = ih.few;
          same = ih.same;
          leaves = ih.leaves;
        }
        | inr take ↦ rw take record {
          verdict_is = rw take;
          few = omega (arith, m.count, m.sent);
          same = m.same;
          leaves = (refl, m.init);
        }
      ]

  prepare-nrexmt : (start : Timeval) (c : Client f) → (prepare f start c).info.nrexmt ≡ 0
  unfolding prepare rtt_newpack
  prepare-nrexmt start c = refl

  -- An exchange that the process outlives ends as `verdict` says of the events, with three
  -- retransmissions: the value is that of the first datagram that holds a header with the
  -- sequence number of this request, unless four alarms come before it. It sends four
  -- datagrams at most, all with that number, which is one more than the last one (mod 2 ^ 32). Where
  -- it gives up, the estimates are set up anew in the next call.
  pub dg_send_recv-Ended :
      (start : Timeval) (first : Send) (es : List Event) (c : Client f)
      → first.sent ≡ true
      → Ended maxnrexmt ((c.seq + 1) % 2 ^ 32) es (dg_send_recv f start first es c)
  unfolding dg_send_recv
  dg_send_recv-Ended start first es c ok = rw ok (
      receive-Ended es maxnrexmt (prepare f start c) _ (record {
        count = omega (arith, prepare-nrexmt start c);
        sent = omega (arith, prepare-nrexmt start c);
        same = (refl, tt);
        init = refl;
      }))

  -- With four alarms among the events, an exchange whose first transmission succeeds returns, or the
  -- process ends: it does not wait any more.
  pub dg_send_recv-ends :
      (start : Timeval) (first : Send) (es : List Event) (c : Client f)
      → first.sent ≡ true
      → maxnrexmt < alarms es
      → verdict_of (dg_send_recv f start first es c) ≢ pending
  dg_send_recv-ends start first es c ok h e =
      verdict-ne-pending maxnrexmt ((c.seq + 1) % 2 ^ 32) es h
        (sym (dg_send_recv-Ended start first es c ok).verdict_is ∙ e)
