-- ===== src/Tests/Uno/Game.antt =====
-- What is proved of the game, at the game of three.
use unpv13e.Base.{
  ℕ, zero, suc, ◌+◌, ◌≤◌, ◌≡◌, refl, subst, ◌⊎◌, inl, inr, [], ◌∷◌, true, Option, none, some, arith,
}
use unpv13e.Tests.Uno.Table.{seats, table, table-IsDealt, table-IsSeated}
use unpv13e.Uno.Arrays.{update, count_below}
use unpv13e.Uno.Cards.{cards, has_name, or_else, effect}
use unpv13e.Uno.Shuffle.{IsShuffled, shuffle, shuffle-IsShuffled}
use unpv13e.Uno.Turn.{
  taken, NextSeat, seek, step_of, switch_to_next_player, switch_to_next_player-NextSeat,
}
use unpv13e.Uno.Game.{Game}
use unpv13e.Uno.Draw.{give_card_to_player, reshuffle}
use unpv13e.Uno.Draw.Sound.{Given, give_card_to_player-Given}
use unpv13e.Uno.Draw.Reshuffle.{Restacked, reshuffle-Restacked}
use unpv13e.Uno.Deal.{opening}
use unpv13e.Uno.Deal.Opening.{OpenedOr, opening-OpenedOr}
use unpv13e.Uno.Play.{hand_score, leave, play, stored_name, winner_score}
use unpv13e.Uno.Play.Sound.{Proceeds, CostsAtMost, play-Proceeds}
use unpv13e.Uno.Play.Leave.{LeftBy, leave-LeftBy}
use unpv13e.Uno.Play.Score.{together, winner_score-le}
use unpv13e.Uno.Race.{resolved}
use unpv13e.Uno.Race.Sound.{Keeps}
use unpv13e.Uno.Race.Decides.{Settled, Revived, resolved-Settled, resolved_revives}
use unpv13e.Uno.Rounds.{Input, line, byte_at, select_round}
use unpv13e.Uno.Rounds.Sound.{Stays, select_round-Keeps}

-- What rand() answers here.
abbrev draws : ℕ → ℕ
draws i = i + 3

next_of_0 : switch_to_next_player 0 table.hand_num 1 ≡ 2
unfolding switch_to_next_player seek step_of
next_of_0 = refl

shuffle-IsShuffled_example : IsShuffled (λ i. 7) 4 (shuffle draws (λ i. 7) 4)
shuffle-IsShuffled_example = shuffle-IsShuffled draws (λ i. 7) 4

switch_to_next_player-NextSeat_example :
    NextSeat table.hand_num 1 0 (switch_to_next_player 0 table.hand_num 1)
switch_to_next_player-NextSeat_example =
    switch_to_next_player-NextSeat table.hand_num 1 0 (omega arith)

give_card_to_player-Given_example :
    Given 2 1 table (give_card_to_player (λ n. draws) seats 1 2 table)
give_card_to_player-Given_example =
    give_card_to_player-Given (λ n. draws) seats 1 2 table table-IsDealt refl (omega arith)

reshuffle-Restacked_example : Restacked table (reshuffle draws seats table)
reshuffle-Restacked_example = reshuffle-Restacked draws seats table

three_seats : count_below 10 (λ s. taken (seats s)) ≡ 3
unfolding count_below
three_seats = refl

opening-OpenedOr_example : OpenedOr seats 3 (opening draws (λ i. 0) 7 3 seats (λ i. 2) 3)
opening-OpenedOr_example =
    opening-OpenedOr draws (λ i. 0) 7 3 seats (λ i. 2) 3 (omega arith) three_seats

-- Seat 0 plays a wild card, as red.
seat_0 : (j : ℕ) → table.hand 0 j ≡ true → (j ≡ 100) ⊎ (j ≡ 104)
seat_0 j held = ground arith

wild-CostsAtMost : CostsAtMost 0 0 (b'd' ∷ b'x' ∷ []) table
unfolding has_name cards or_else effect
wild-CostsAtMost j held named = elim (seat_0 j held) [
  | inl at ↦ rw at (omega arith)
  | inr at ↦
      let other : has_name 104 (b'd' ∷ b'x' ∷ []) ≡ true =
        subst (λ k. has_name k (b'd' ∷ b'x' ∷ []) ≡ true) at named in
      absurd (cc)
]

play-Proceeds_example :
    Proceeds 0 table (play (λ n. draws) 0 ((b'9' ∷ []) ∷ (b'd' ∷ b'r' ∷ []) ∷ []) seats table)
unfolding stored_name has_name cards or_else
play-Proceeds_example =
    play-Proceeds (λ n. draws) 0 (b'9' ∷ []) (b'd' ∷ b'r' ∷ []) (b'd' ∷ b'x' ∷ []) [] seats table 0
      table-IsDealt table-IsSeated wild-CostsAtMost (omega arith) refl refl
      (100, omega arith, refl, refl)

leave-LeftBy_example : LeftBy 0 table (leave 0 10 true seats table)
leave-LeftBy_example =
    leave-LeftBy 0 10 true seats table table-IsDealt table-IsSeated (omega arith) refl
      (λ e. ground (arith, e))

winner_score-le_example :
    (winner_score seats table ≡ hand_score (together 10 seats table.hand))
    × (winner_score seats table ≤ 1240)
winner_score-le_example = winner_score-le seats table table-IsDealt

-- Seat 1 has called for itself, with the least timestamp.
resolved-Settled_example : Settled 1 table (resolved (λ n. draws) seats table (some 1))
resolved-Settled_example =
    resolved-Settled (λ n. draws) seats table 1 table-IsDealt (omega arith) refl (omega arith)

-- Seat 1 has called for seat 2, which has gone.
abbrev deserted : Game
deserted = record table { hand_num = update table.hand_num 2 none; player_num = 2 }

resolved_revives_example : Revived 2 deserted (resolved (λ n. draws) seats deserted (some 2))
resolved_revives_example =
    resolved_revives (λ n. draws) seats deserted 2 (omega arith) refl (omega arith)

abbrev lines : ℕ → Option Input
lines zero = some (line (b'9' ∷ b' ' ∷ b'd' ∷ b'r' ∷ b'\n' ∷ []))
lines (suc i) = none

lines-Stays : (j : ℕ) → Stays (lines j)
unfolding byte_at
lines-Stays zero = λ e. ground (arith, e)
lines-Stays (suc j) = tt

select_round-Keeps_example :
    Keeps 6 table (select_round (λ i n. draws) (λ i. b'a' ∷ []) seats lines table)
select_round-Keeps_example =
    select_round-Keeps (λ i n. draws) (λ i. b'a' ∷ []) seats lines table table-IsDealt
      table-IsSeated (omega arith) lines-Stays
