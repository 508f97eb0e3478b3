-- ===== src/Rtt/Exchange.antt =====
-- rtt/dg_send_recv.c: a request and its reply over UDP, with retransmission. The signal handler's
-- jump back into the function is an event of its own.
pub mod Laws
use unpv13e.Base.{
  ℕ, ◌+◌, ◌-◌, ◌%◌, ◌^◌, List, [], ◌∷◌, Bool, true, false, ◌||◌, not, ltb, ◌==◌, if◌then◌else◌, ℤ,
  ltb_ℤ, pos, negsuc,
}
use unpv13e.Rtt.Float.{Floats}
use unpv13e.Rtt.{Timeval, RttInfo, rtt_init, rtt_ts, rtt_newpack, rtt_start, rtt_stop, rtt_timeout}

-- `sizeof(struct hdr)`: two `uint32_t`.
abbrev pub hdr_size : ℕ
hdr_size = 8

-- A transmission: the clock when it is stamped, and whether `sendmsg` succeeds.
pub record Send : Type 0 where
  pub now : Timeval
  pub sent : Bool

-- `datagram n seq ts now`: `recvmsg` returns `n`, with these fields in `recvhdr`, and the clock
-- reads `now` behind it. `alarm s`: SIGALRM comes, and `s` is the transmission after it.
pub data Event : Type 0 where
  datagram : ℕ → ℕ → ℕ → Timeval → Event
  alarm : Send → Event
  recv_failed : Event

-- What went out: a datagram with its header's fields, and an alarm's seconds.
pub data Output : Type 0 where
  sendmsg : ℕ → ℕ → Output
  set_alarm : ℤ → Output

module _ (f : Floats) where
  open f use {D}

  -- The static variables `rttinit`, `rttinfo` and `sendhdr.seq`.
  pub record Client : Type 0 where
    pub rttinit : Bool
    pub info : RttInfo D
    pub seq : ℕ

  -- `replied n`: the value is `n`. `gave_up`: it is -1, with `errno` at ETIMEDOUT. `err_sys`: the
  -- process ends. `waiting`: the events are over and the function has not returned. With the
  -- output, the newest first.
  pub data Outcome : Type 0 where
    replied : ℕ → Client → List Output → Outcome
    gave_up : Client → List Output → Outcome
    err_sys : List Output → Outcome
    waiting : Client → List Output → Outcome

  -- From `sendagain` to the alarm.
  pub transmit : Send → Client → List Output → (Client → List Output → Outcome) → Outcome
  transmit s c out next =
      let out' = sendmsg c.seq (rtt_ts f c.info s.now) ∷ out in
      if s.sent then next c (set_alarm (rtt_start f c.info) ∷ out') else err_sys out'

  -- What follows the jump out of the signal handler.
  pub on_alarm : Send → Client → List Output → (Client → List Output → Outcome) → Outcome
  unfolding transmit
  on_alarm s c out next =
      let (rc, info) = rtt_timeout f c.info in
      if ltb_ℤ rc (pos 0)
      then gave_up (record c { rttinit = false; info = info }) out
      else transmit s (record c { info = info }) out next

  -- The loop around `Recvmsg`, and what follows it.
  pub receive : List Event → Client → List Output → Outcome
  receive [] c out = waiting c out
  receive (recv_failed ∷ es) c out = err_sys out
  receive (alarm s ∷ es) c out = on_alarm s c out (receive es)
  receive (datagram n seq ts now ∷ es) c out =
      let rest = receive es c out in
      if ltb n hdr_size || not (seq == c.seq)
      then rest
      else let ms = (rtt_ts f c.info now + 2 ^ 32 - ts) % 2 ^ 32 in
        replied (n - hdr_size) (record c { info = rtt_stop f c.info ms }) (set_alarm (pos 0) ∷ out)

  -- What is set up before the first transmission; `start` is the clock at a first call.
  pub prepare : Timeval → Client → Client
  prepare start c =
      let info = if c.rttinit then c.info else rtt_init f start c.info in
      record { rttinit = true; info = rtt_newpack f info; seq = (c.seq + 1) % 2 ^ 32 }

  unfoldable pub dg_send_recv : Timeval → Send → List Event → Client → Outcome
  unfolding prepare receive on_alarm
  dg_send_recv start first es c = transmit first (prepare start c) [] (receive es)
