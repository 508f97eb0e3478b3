-- ===== src/Uno/Draw.antt =====
-- tcpcliserv/final_server.c: GiveCardToPlayer. What rand() answers is a parameter, one sequence for
-- each card that is given.
pub mod Reshuffle
pub mod Dealt
pub mod Sound
use unpv13e.Base.{
  ℕ, zero, suc, ◌+◌, ◌-◌, ◌++◌, Bool, true, false, ◌&&◌, ◌||◌, Option, none, some, ◌==◌, ◌≡◌, refl,
  if◌then◌else◌,
}
use unpv13e.Uno.Arrays.{update}
use unpv13e.Uno.Shuffle.{shuffle}
use unpv13e.Uno.Turn.{taken}
use unpv13e.Uno.Game.{Game, tell, tell_players, drawn, reshuffled}

-- hand_num[i]++ and hand_num[i]--, with -1 as `none`.
abbrev pub increment : Option ℕ → Option ℕ
increment none = some 0
increment (some n) = some (suc n)

abbrev pub decrement : Option ℕ → Option ℕ
decrement none = none
decrement (some zero) = none
decrement (some (suc n)) = some n

-- adopted_cards[q]: a player of the first `n` seats who has not left holds the card.
unfoldable pub adopted : ℕ → Game → ℕ → Bool
adopted zero g q = false
adopted (suc n) g q = adopted n g q || (taken (g.hand_num n) && g.hand n q)

-- The cards below `n` that are not adopted go to the front of card_seq, and are counted.
unfoldable pub collect : ℕ → (ℕ → Bool) → (ℕ → ℕ) → (ℕ → ℕ) × ℕ
collect zero held seq = (seq, 0)
collect (suc n) held seq =
    let (seq', k) = collect n held seq in if held n then (seq', k) else (update seq' k n, suc k)

-- The stack is made anew, and then shuffled.
unfoldable pub reshuffle : (ℕ → ℕ) → (ℕ → Option ℕ) → Game → Game
unfolding adopted collect
reshuffle rand used g =
    let told = tell_players none reshuffled used g in
    let (seq, n) = collect 108 (adopted 10 g) g.card_seq in
    record told { card_seq = shuffle rand seq n; card_num = n }

-- The top card goes to a seat. With no card at all card_seq[-1] is read: `none`.
unfoldable pub draw_top : (ℕ → Option ℕ) → ℕ → Game → ℕ → Option Game
draw_top used w g zero = none
draw_top used w g (suc n) =
    let c = g.card_seq n in
    let g' = tell (used w) (drawn c) g in
    some (record g' {
      hand = update g.hand w (update (g.hand w) c true);
      hand_num = update g.hand_num w (increment (g.hand_num w));
      card_num = n;
      is_uno = update g.is_uno w false;
    })

unfoldable pub replenish : (ℕ → ℕ) → (ℕ → Option ℕ) → Game → Game
replenish rand used g = if g.card_num == 0 then reshuffle rand used g else g

unfoldable pub draw_one : (ℕ → ℕ) → (ℕ → Option ℕ) → ℕ → Game → Option Game
draw_one rand used w g = let g' = replenish rand used g in draw_top used w g' g'.card_num

unfoldable pub give_card_to_player : (ℕ → ℕ → ℕ) → (ℕ → Option ℕ) → ℕ → ℕ → Game → Option Game
give_card_to_player rand used w zero g = some g
give_card_to_player rand used w (suc how_many) g = elim (draw_one (rand how_many) used w g) [
  | none ↦ none
  | some g' ↦ give_card_to_player rand used w how_many g'
]
