-- ===== src/Tests/Rtt.antt =====
-- lib/rtt.c and rtt/dg_send_recv.c at concrete inputs, over thousandths.
use unpv13e.Base.{
  ℕ, ◌+◌, ◌-◌, ◌*◌, ◌/◌, ◌%◌, ◌^◌, ◌≡◌, refl, List, [], ◌∷◌, true, false, arith, ℤ, pos, negsuc,
  ◌+ℤ◌, ◌-ℤ◌, ltb_ℤ,
}
use unpv13e.Rtt.Float.{Floats, HasLimits}
use unpv13e.Rtt.{Timeval, RttInfo, rtt_init, rtt_ts, rtt_timeout}
use unpv13e.Rtt.Laws.{rtt_ts-elapsed}
use unpv13e.Rtt.Exchange.{Send, Event, datagram, alarm, Client, dg_send_recv}
use unpv13e.Rtt.Exchange.Laws.{Ended, dg_send_recv-Ended}

-- a * b / 1000, and the other way, on the size of a number.
abbrev scale : (ℕ → ℕ) → ℤ → ℤ
scale g (pos n) = pos (g n)
scale g (negsuc n) = pos 0 -ℤ pos (g (n + 1))

abbrev size : ℤ → ℕ
size (pos n) = n
size (negsuc n) = n + 1

abbrev thousandths : Floats
thousandths = record {
  D = ℤ;
  lit = λ a b. pos (a * 1000 / b);
  add = λ a b. a +ℤ b;
  sub = λ a b. a -ℤ b;
  mul = λ a b. scale (λ n. n * size b / 1000) a;
  div = λ a b. scale (λ n. n * 1000 / size b) a;
  neg = λ a. pos 0 -ℤ a;
  lt = ltb_ℤ;
  narrow = λ a. a;
  trunc = λ a. scale (λ n. n / 1000) a;
}

thousandths-HasLimits : HasLimits thousandths 2 60
thousandths-HasLimits = record {
  narrow_lo = refl;
  narrow_hi = refl;
  lo_self = refl;
  hi_self = refl;
  hi_lo = refl;
}

abbrev blank : RttInfo ℤ
blank = record { rtt = pos 0; srtt = pos 0; rttvar = pos 0; rto = pos 0; nrexmt = 0; base = 0 }

abbrev noon : Timeval
noon = record { sec = 43200; usec = 500000 }

abbrev later : Timeval
later = record { sec = 43201; usec = 600000 }

first_rto : (rtt_init thousandths noon blank).rto ≡ pos 3000
unfolding rtt_init
first_rto = refl

-- Nothing clamps a doubled timeout: from the longest it goes to twice the maximum.
doubled_rto : (rtt_timeout thousandths (record blank { rto = pos 60000 })).1.rto ≡ pos 120000
unfolding rtt_timeout
doubled_rto = refl

rtt_ts-elapsed_example :
    (rtt_ts thousandths (record blank { base = 43000 }) later
        + 2 ^ 32
        - rtt_ts thousandths (record blank { base = 43000 }) noon)
      % 2 ^ 32
    ≡ 1100
rtt_ts-elapsed_example =
    rtt_ts-elapsed thousandths (record blank { base = 43000 }) noon later (omega arith)
      (omega arith) (omega arith)

abbrev send : Send
send = record { now = noon; sent = true }

abbrev client : Client thousandths
client = record { rttinit = false; info = blank; seq = 6 }

-- An old reply, an alarm, a short datagram, and the reply.
abbrev events : List Event
events = datagram 20 6 0 noon ∷ alarm send ∷ datagram 4 7 0 noon ∷ datagram 20 7 500 later ∷ []

dg_send_recv-Ended_example :
    Ended thousandths 3 7 events (dg_send_recv thousandths noon send events client)
dg_send_recv-Ended_example = dg_send_recv-Ended thousandths noon send events client refl

abbrev silence : List Event
silence = alarm send ∷ alarm send ∷ alarm send ∷ alarm send ∷ []
