-- ===== src/Rtt/Laws.antt =====
-- The limits of the timeout, and the arithmetic of the timestamps.
use unpv13e.Base.{
  ℕ, ◌+◌, ◌-◌, ◌*◌, ◌/◌, ◌%◌, ◌^◌, ◌≤◌, ◌<◌, ◌≡◌, refl, true, false, arith, Bool-cases, inl, inr,
  ltb, pos, negsuc,
}
use unpv13e.Rtt.{
  rxtmin, rxtmax, maxnrexmt, Timeval, RttInfo, rtt_minmax, rtt_init, rtt_ts, rtt_stop, rtt_timeout,
}
use unpv13e.Rtt.Float.{Floats, HasLimits}

module _ (f : Floats) where
  open f use {D, lit, lt, narrow}

  -- Neither below `RTT_RXTMIN` nor above `RTT_RXTMAX`.
  abbrev pub InLimits : D → Type 0
  InLimits x = (lt x (lit rxtmin 1) ≡ false) × (lt (lit rxtmax 1) x ≡ false)

  pub rtt_minmax-InLimits : HasLimits f rxtmin rxtmax → (x : D) → InLimits (rtt_minmax f x)
  unfolding rtt_minmax
  rtt_minmax-InLimits h x = elim (Bool-cases (lt x (lit rxtmin 1))) [
    | inl e ↦ rw (e, h.narrow_lo) (h.lo_self, h.hi_lo)
    | inr e ↦ elim (Bool-cases (lt (lit rxtmax 1) x)) [
      | inl e' ↦ rw (e, e', h.narrow_hi) (h.hi_lo, h.hi_self)
      | inr e' ↦ rw (e, e') (e, e')
    ]
  ]

  rtt_init-InLimits :
      HasLimits f rxtmin rxtmax → (tv : Timeval) (p : RttInfo D) → InLimits (rtt_init f tv p).rto
  unfolding rtt_init
  rtt_init-InLimits h tv p = rtt_minmax-InLimits h _

  rtt_stop-InLimits :
      HasLimits f rxtmin rxtmax → (p : RttInfo D) (ms : ℕ) → InLimits (rtt_stop f p ms).rto
  unfolding rtt_stop
  rtt_stop-InLimits h p ms = rtt_minmax-InLimits h _

  -- Where the limits are exact floats in their order, `rtt_init` from any state and `rtt_stop` with any
  -- measured time leave a timeout that is neither below 2 nor above 60 seconds.
  pub rto-InLimits :
      HasLimits f rxtmin rxtmax
      → (tv : Timeval) (p : RttInfo D) (ms : ℕ)
      → InLimits (rtt_init f tv p).rto × InLimits (rtt_stop f p ms).rto
  rto-InLimits h tv p ms = (rtt_init-InLimits h tv p, rtt_stop-InLimits h p ms)

  -- For two readings of the clock, in order and less than 2 ^ 32 milliseconds apart, the difference of
  -- their timestamps as `uint32_t` is the time between them in milliseconds, also where a
  -- timestamp has wrapped in between.
  pub rtt_ts-elapsed :
      (p : RttInfo D) (t u : Timeval)
      → p.base < 2 ^ 32
      → t.sec * 1000 + t.usec / 1000 ≤ u.sec * 1000 + u.usec / 1000
      → u.sec * 1000 + u.usec / 1000 < t.sec * 1000 + t.usec / 1000 + 2 ^ 32
      → (rtt_ts f p u + 2 ^ 32 - rtt_ts f p t) % 2 ^ 32
        ≡ (u.sec * 1000 + u.usec / 1000) - (t.sec * 1000 + t.usec / 1000)
  unfolding rtt_ts
  rtt_ts-elapsed p t u b le near = omega arith

  -- A timeout before the last counts up, and the last gives up.
  pub rtt_timeout-more :
      (p : RttInfo D)
      → p.nrexmt < maxnrexmt
      → (q : RttInfo D) × (rtt_timeout f p ≡ (pos 0, q))
        × (q.nrexmt ≡ p.nrexmt + 1)
        × (q.base ≡ p.base)
  unfolding rtt_timeout
  rtt_timeout-more p h =
      let go_on : ltb maxnrexmt (p.nrexmt + 1) ≡ false = ground arith in
      ((rtt_timeout f p).1, rw go_on, refl, refl)

  pub rtt_timeout-last :
      (p : RttInfo D) → maxnrexmt ≤ p.nrexmt → (q : RttInfo D) × (rtt_timeout f p ≡ (negsuc 0, q))
  unfolding rtt_timeout
  rtt_timeout-last p h =
      let give_up : ltb maxnrexmt (p.nrexmt + 1) ≡ true = ground arith in
      ((rtt_timeout f p).1, rw give_up)
