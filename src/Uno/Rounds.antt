-- ===== src/Uno/Rounds.antt =====
-- tcpcliserv/final_server.c: the loop of GameStart, around its select.
pub mod Sound
use unpv13e.Base.{
  ℕ, zero, suc, ◌+◌, ◌-◌, ◌++◌, List, [], ◌∷◌, Bool, true, false, ◌&&◌, ◌||◌, not, Option, none,
  some, ℤ, pos, ◌==◌, if◌then◌else◌,
}
use unpv13e.Uno.Text.{before_newline, before_null, tokens, long_max}
use unpv13e.Uno.Turn.{taken}
use unpv13e.Uno.Game.{Game, chat, tell_players}
use unpv13e.Uno.Play.{Outcome, goes, ends, leave, play, take_card}
use unpv13e.Uno.Race.{own_uno, catch_uno, resolved}

-- What readline gives for a connection that select tells of.
pub data Input : Type 0 where
  eof : Input
  line : List ℕ → Input

-- recvline[k], where a null ends the line.
unfoldable pub byte_at : ℕ → List ℕ → ℕ
byte_at k [] = 0
byte_at zero (c ∷ r) = c
byte_at (suc k) (c ∷ r) = byte_at k r

unfoldable pub starts : ℕ → ℕ → List ℕ → Bool
starts a b l = byte_at 0 l == a && byte_at 1 l == b

module _ (rand : ℕ → ℕ → ℕ) (name : ℕ → List ℕ) (used : ℕ → Option ℕ) where
  -- The line of a player who plays at seat `i`, over connection `conn`.
  unfoldable pub on_line : ℕ → ℕ → List ℕ → Game → Option Outcome
  on_line i conn l g =
      let ws = tokens (before_newline l) in
      if byte_at 0 l == b'8'
      then some (leave i conn false used g)
      else if starts b'2' b'1' l
      then some (goes (tell_players none (chat (before_null l)) used g))
      else if byte_at 0 l == b'9'
      then play rand i ws used g
      else if starts b'1' b'0' l
      then take_card rand used g
      else if starts b'1' b'1' l
      then own_uno rand i ws used g
      else if starts b'1' b'2' l
      then catch_uno rand name i ws used g
      else some (goes g)

  unfoldable pub on_input : ℕ → ℕ → Input → Game → Option Outcome
  on_input i conn eof g = some (leave i conn true used g)
  on_input i conn (line l) g = on_line i conn l g

  -- A seat is served if it is used, plays, and its connection is ready.
  unfoldable pub serve_seat : ℕ → Option ℕ → Option ℕ → Option Input → Game → Option Outcome
  serve_seat i (some conn) (some n) (some input) g = on_input i conn input g
  serve_seat i conn n input g = some (goes g)

-- The seats `i` to `i + k - 1`, in order, until the game ends.
unfoldable pub serve :
    (ℕ → ℕ → ℕ → ℕ)
    → (ℕ → List ℕ)
    → (ℕ → Option ℕ)
    → (ℕ → Option Input)
    → ℕ
    → ℕ
    → Option Outcome
    → Option Outcome
serve rand name used inputs k i none = none
serve rand name used inputs k i (some (ends g)) = some (ends g)
serve rand name used inputs zero i (some (goes g)) = some (goes g)
serve rand name used inputs (suc k) i (some (goes g)) =
    serve rand name used inputs k (suc i)
      (serve_seat (rand i) name used i (used i) (g.hand_num i) (inputs i) g)

unfoldable pub after_calls : (ℕ → ℕ → ℕ) → (ℕ → Option ℕ) → Option Outcome → Option Outcome
after_calls rand used none = none
after_calls rand used (some (ends g)) = some (ends g)
after_calls rand used (some (goes g)) = elim (resolved rand used g g.have_uno) [
  | none ↦ none
  | some g' ↦ some (goes g')
]

-- One turn of the loop: no call yet, the seats that are ready, and then the calls.
unfoldable pub select_round :
    (ℕ → ℕ → ℕ → ℕ) → (ℕ → List ℕ) → (ℕ → Option ℕ) → (ℕ → Option Input) → Game → Option Outcome
select_round rand name used inputs g =
    let g' = record g { have_uno = none; time_stamp = λ i. pos long_max } in
    after_calls (rand 10) used (serve rand name used inputs 10 0 (some (goes g')))
