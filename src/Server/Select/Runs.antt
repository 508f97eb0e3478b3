-- ===== src/Server/Select/Runs.antt =====
-- tcpcliserv/tcpservselect01.c: whole runs of the server.
use unpv13e.Base.{ℕ, List, [], ◌∷◌}
use unpv13e.Server.Select.{
  State, Round, Effect, Next, running, ended, initial, round, in_order, next_round, run,
}
use unpv13e.Server.Select.Valid.{IsValid, Answers, initial-IsValid}
use unpv13e.Server.Select.Laws.{Goes, round-Serves}

abbrev AtRunning : (State → Type 0) → Next → Type 0
AtRunning P (running s es) = P s
AtRunning P (ended e) = Unit {0}

-- Each round of the run is answered within the limits of the state in which it begins.
abbrev pub Answered : ℕ → List Round → State → Type 0
Answered listenfd [] s = Unit {0}
Answered listenfd (r ∷ rs) s =
    Answers listenfd r s × AtRunning (Answered listenfd rs) (round listenfd r s)

abbrev pub Valid : ℕ → ℕ → Next → Type 0
Valid fd_setsize listenfd (running s es) = IsValid fd_setsize listenfd s
Valid fd_setsize listenfd (ended e) = Unit {0}

Goes-Valid :
    (fd_setsize listenfd : ℕ) (r : Round) (s : State) (n : Next)
    → Goes fd_setsize listenfd r s n
    → Valid fd_setsize listenfd n
Goes-Valid fd_setsize listenfd r s (running s' es) (cs, a, e, d, v) = v
Goes-Valid fd_setsize listenfd r s (ended e) g = tt

in_order-Valid :
    (fd_setsize listenfd : ℕ) (es : List Effect) (n : Next)
    → Valid fd_setsize listenfd n
    → Valid fd_setsize listenfd (in_order es n)
unfolding in_order
in_order-Valid fd_setsize listenfd es (running s es') v = v
in_order-Valid fd_setsize listenfd es (ended e) v = tt

next_round-Valid :
    (fd_setsize listenfd : ℕ) (again : State → Next) (P : State → Type 0) (n : Next)
    → ((s : State) → IsValid fd_setsize listenfd s → P s → Valid fd_setsize listenfd (again s))
    → Valid fd_setsize listenfd n
    → AtRunning P n
    → Valid fd_setsize listenfd (next_round again n)
unfolding next_round
next_round-Valid fd_setsize listenfd again P (running s es) ih v a =
    in_order-Valid fd_setsize listenfd es _ (ih s v a)
next_round-Valid fd_setsize listenfd again P (ended e) ih v a = tt

run_from :
    (fd_setsize listenfd : ℕ) (rs : List Round) (s : State)
    → IsValid fd_setsize listenfd s
    → Answered listenfd rs s
    → Valid fd_setsize listenfd (run listenfd rs s)
unfolding run
run_from fd_setsize listenfd [] s v a = v
run_from fd_setsize listenfd (r ∷ rs) s v (a, later) =
    next_round-Valid fd_setsize listenfd (run listenfd rs) (Answered listenfd rs)
      (round listenfd r s) (run_from fd_setsize listenfd rs)
      (Goes-Valid fd_setsize listenfd r s _ (round-Serves fd_setsize listenfd r s v a)) later

-- However many rounds the server goes from its start, each answered within `Answers`: the table has its
-- size, no client stands behind `maxi`, none stands twice, `allset` is the listening descriptor
-- and the clients of the table and nothing else, and `maxfd` is above none of them.
pub run-Valid :
    (fd_setsize listenfd : ℕ) (rs : List Round)
    → Answered listenfd rs (initial fd_setsize listenfd)
    → Valid fd_setsize listenfd (run listenfd rs (initial fd_setsize listenfd))
run-Valid fd_setsize listenfd rs a =
    run_from fd_setsize listenfd rs (initial fd_setsize listenfd)
      (initial-IsValid fd_setsize listenfd) a
