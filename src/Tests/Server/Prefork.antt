-- ===== src/Tests/Server/Prefork.antt =====
-- server/serv05.c at concrete inputs.
use unpv13e.Base.{ℕ, ◌≡◌, refl, [], ◌∷◌, ◌||◌, ◌==◌, some, arith, pos}
use unpv13e.Server.Prefork.{Child, Server, one_byte, Round, running, listens, round}
use unpv13e.Server.Prefork.Laws.{Answers, Goes, round-Goes}

abbrev child : ℕ → ℕ → Child
child fd status = record { pipefd = fd; status = status; count = 5 }

-- Two of three children are busy, and the middle one is free.
abbrev server : Server
server = record { children = child 10 1 ∷ child 11 0 ∷ child 12 1 ∷ []; navail = pos 1 }

-- A connection comes in, and the last child is done.
abbrev answers : Round
answers = record {
  rset = λ fd. fd == 3 || fd == 12;
  nsel = pos 2;
  accept = some 20;
  reads = λ fd. one_byte;
}

served :
    round 3 answers server
    ≡ running
        (record {
          children = child 10 1 ∷ record { pipefd = 11; status = 1; count = 6 } ∷ child 12 0 ∷ [];
          navail = pos 1;
        })
        ((11, 20) ∷ [])
unfolding round
served = refl

answers-Answers : Answers 3 answers server
unfolding listens
answers-Answers = record {
  listening = λ e. refl;
  nsel = refl;
  busy_ready = (λ e. cc, (λ e. cc, (λ e q. absurd (omega arith), tt)));
}

round-Goes_example : Goes 3 answers server (round 3 answers server)
round-Goes_example = round-Goes 3 answers server (record { navail = refl }) answers-Answers
