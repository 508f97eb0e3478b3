-- ===== src/Rtt.antt =====
-- lib/unprtt.h and lib/rtt.c: the retransmission timer. Its client, rtt/dg_send_recv.c, is in
-- Rtt/Exchange.antt.
pub mod Float
pub mod Laws
pub mod Exchange
use unpv13e.Base.{
  ℕ, ◌+◌, ◌-◌, ◌*◌, ◌/◌, ◌%◌, ◌^◌, Bool, true, false, ltb, if◌then◌else◌, ℤ, pos, negsuc,
}
use unpv13e.Rtt.Float.{Floats}

abbrev pub rxtmin : ℕ
rxtmin = 2

abbrev pub rxtmax : ℕ
rxtmax = 60

abbrev pub maxnrexmt : ℕ
maxnrexmt = 3

-- A `struct timeval`, as `gettimeofday` fills it.
pub record Timeval : Type 0 where
  pub sec : ℕ
  pub usec : ℕ

-- `struct rtt_info`; `base` is a `uint32_t`.
pub record RttInfo (D : Type 0) : Type 0 where
  pub rtt : D
  pub srtt : D
  pub rttvar : D
  pub rto : D
  pub nrexmt : ℕ
  pub base : ℕ

module _ (f : Floats) where
  open f use {D, lit, add, sub, mul, div, neg, lt, narrow, trunc}

  -- `RTT_RTOCALC`
  pub rtocalc : D → D → D
  rtocalc srtt rttvar = add srtt (mul (lit 4 1) rttvar)

  pub rtt_minmax : D → D
  rtt_minmax rto =
      if lt rto (lit rxtmin 1)
      then narrow (lit rxtmin 1)
      else if lt (lit rxtmax 1) rto
      then narrow (lit rxtmax 1)
      else rto

  unfoldable pub rtt_init : Timeval → RttInfo D → RttInfo D
  unfolding rtocalc rtt_minmax
  rtt_init tv p =
      let srtt = narrow (lit 0 1) in
      let rttvar = narrow (lit 75 100) in
      record p {
        base = tv.sec % 2 ^ 32;
        rtt = narrow (lit 0 1);
        srtt = srtt;
        rttvar = rttvar;
        rto = rtt_minmax (narrow (rtocalc srtt rttvar));
      }

  -- Milliseconds since `base`, as a `uint32_t`.
  pub rtt_ts : RttInfo D → Timeval → ℕ
  rtt_ts p tv = ((tv.sec + 2 ^ 32 - p.base) * 1000 + tv.usec / 1000) % 2 ^ 32

  pub rtt_newpack : RttInfo D → RttInfo D
  rtt_newpack p = record p { nrexmt = 0 }

  pub rtt_start : RttInfo D → ℤ
  rtt_start p = trunc (add p.rto (lit 1 2))

  pub rtt_stop : RttInfo D → ℕ → RttInfo D
  unfolding rtocalc rtt_minmax
  rtt_stop p ms =
      let rtt = narrow (div (lit ms 1) (lit 1000 1)) in
      let delta = sub rtt p.srtt in
      let srtt = narrow (add p.srtt (div delta (lit 8 1))) in
      let size = if lt delta (lit 0 1) then neg delta else delta in
      let rttvar = narrow (add p.rttvar (div (sub size p.rttvar) (lit 4 1))) in
      record p {
        rtt = rtt;
        srtt = srtt;
        rttvar = rttvar;
        rto = rtt_minmax (narrow (rtocalc srtt rttvar));
      }

  -- The value is -1 when it is time to give up, and else 0.
  unfoldable pub rtt_timeout : RttInfo D → ℤ × RttInfo D
  rtt_timeout p =
      let p' = record p { rto = narrow (mul p.rto (lit 2 1)); nrexmt = p.nrexmt + 1 } in
      (if ltb maxnrexmt p'.nrexmt then negsuc 0 else pos 0, p')
