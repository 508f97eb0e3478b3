-- ===== src/Tests/Server/Select.antt =====
-- A round of the select server with a new client, one that sends and one that has gone.
use unpv13e.Base.{
  ◌≡◌, ◌==◌, ◌||◌, refl, [], ◌∷◌, true, false, none, some, if◌then◌else◌, arith, pos,
}
use unpv13e.Server.Select.Runs.{Answered, Valid, run-Valid}
use unpv13e.Server.Select.{initial, run, State, Round, echoed, closed, running, round}
use unpv13e.Server.Select.Valid.{IsValid, Answers}
use unpv13e.Server.Select.Laws.{Goes, round-Serves}

abbrev two : State
two = record {
  client = some 4 ∷ some 5 ∷ none ∷ none ∷ [];
  maxi = pos 1;
  maxfd = 5;
  allset = λ x. (x == 3) || ((x == 4) || ((x == 5) || false));
}

two-IsValid : IsValid 4 3 two
two-IsValid = record {
  size = refl;
  free = tt;
  distinct = (refl, (refl, tt));
  listening = refl;
  table = λ x. refl;
  largest = λ x. ground arith;
}

abbrev busy : Round
busy = record {
  rset = λ x. (x == 3) || ((x == 4) || (x == 5));
  nready = pos 3;
  accept = some 6;
  read = λ x. if x == 4 then some (1 ∷ 2 ∷ []) else some [];
  fine = λ x. true;
}

busy-Answers : Answers 3 busy two
busy-Answers = record { watched = λ x h. ground arith; count = refl; fresh = refl }

-- The new client has the third entry, the first gets its bytes back, and the second is gone.
abbrev served_two : State
served_two = record {
  client = some 4 ∷ none ∷ some 6 ∷ none ∷ [];
  maxi = pos 2;
  maxfd = 6;
  allset = λ x. if x == 5 then false else (if x == 6 then true else two.allset x);
}

busy-round : round 3 busy two ≡ running served_two (echoed 4 (1 ∷ 2 ∷ []) ∷ closed 5 ∷ [])
unfolding round
busy-round = refl

round-Serves_example : Goes 4 3 busy two (round 3 busy two)
round-Serves_example = round-Serves 4 3 busy two two-IsValid busy-Answers

-- From the start: a client comes, sends, and goes.
abbrev comes : Round
comes = record {
  rset = λ x. x == 3;
  nready = pos 1;
  accept = some 4;
  read = λ x. none;
  fine = λ x. true;
}

abbrev goes : Round
goes = record {
  rset = λ x. x == 4;
  nready = pos 1;
  accept = none;
  read = λ x. some [];
  fine = λ x. true;
}

comes_and_goes : Answered 3 (comes ∷ goes ∷ []) (initial 2 3)
unfolding round
comes_and_goes = (
  record { watched = λ x h. ground (arith, h); count = refl; fresh = refl },
  (record { watched = λ x h. ground (arith, h); count = refl; fresh = tt }, tt),
)

run-Valid_example : Valid 2 3 (run 3 (comes ∷ goes ∷ []) (initial 2 3))
run-Valid_example = run-Valid 2 3 (comes ∷ goes ∷ []) comes_and_goes
