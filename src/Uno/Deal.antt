-- ===== src/Uno/Deal.antt =====
-- tcpcliserv/final_server.c: the first part of GameStart, up to the first round: the cards are
-- dealt, one is turned up, and the first player is drawn.
pub mod Hands
pub mod Opening
pub mod Table
use unpv13e.Base.{
  ℕ, zero, suc, ◌+◌, ◌-◌, ◌%◌, ◌++◌, List, [], ◌∷◌, Bool, true, false, Option, none, some, pos,
  ◌==◌, ltb, if◌then◌else◌,
}
use unpv13e.Uno.Arrays.{update}
use unpv13e.Uno.Cards.{cards}
use unpv13e.Uno.Shuffle.{shuffle}
use unpv13e.Uno.Turn.{taken}
use unpv13e.Uno.Game.{Game, Sent, begins, to_everyone, start_round}

-- hand[i][card_seq[card_num - 1]] = 1; card_num--
unfoldable pub deal_one : ℕ → Game → Game
deal_one i g = record g {
  hand = update g.hand i (update (g.hand i) (g.card_seq (g.card_num - 1)) true);
  card_num = g.card_num - 1;
}

unfoldable pub deal_cards : ℕ → ℕ → Game → Game
deal_cards zero i g = g
deal_cards (suc k) i g = deal_cards k i (deal_one i g)

unfoldable pub deal_seat : ℕ → Game → Game
deal_seat i g = let g' = deal_cards 7 i g in record g' { hand_num = update g'.hand_num i (some 7) }

-- The seats that are used, of the `k` from `i` on.
unfoldable pub deal_seats : ℕ → ℕ → (ℕ → Option ℕ) → Game → Game
deal_seats zero i used g = g
deal_seats (suc k) i used g =
    deal_seats k (suc i) used (if taken (used i) then deal_seat i g else g)

unfoldable pub turn_up : Game → Game
turn_up g =
    let c = g.card_seq (g.card_num - 1) in
    record g { table_card = c; card_num = g.card_num - 1; colour = (cards c).colour }

-- Cards are turned up until one is not wild; `none` is no fuel.
unfoldable pub table_cards : ℕ → Game → Option Game
table_cards zero g = none
table_cards (suc fuel) g =
    let g' = turn_up g in
    let rest = table_cards fuel g' in if ltb g'.table_card 100 then some g' else rest

-- The seat of the player number `which`, where the used seats are counted from 0.
unfoldable pub seat_number : ℕ → ℕ → ℕ → (ℕ → Option ℕ) → ℕ → ℕ
seat_number zero i j used which = which
seat_number (suc k) i j used which =
    let next = seat_number k (suc i) j used which in
    let later = seat_number k (suc i) (suc j) used which in
    if taken (used i) then (if j == which then i else later) else next

unfoldable pub names : ℕ → ℕ → (ℕ → Option ℕ) → List (Option ℕ)
names zero i used = []
names (suc k) i used =
    let rest = names k (suc i) used in if taken (used i) then used i ∷ rest else rest

-- The variables before a card is dealt; `junk` is what the stack holds.
unfoldable pub before : (ℕ → ℕ) → (ℕ → ℕ) → ℕ → (ℕ → ℕ) → ℕ → Game
before rand junk player_num state total = record {
  hand = λ s c. false;
  hand_num = λ s. none;
  card_seq = shuffle rand junk 108;
  card_num = 108;
  whose_round = 0;
  turn = 0;
  table_card = 0;
  colour = 0;
  player_num = player_num;
  card_id = none;
  is_uno = λ s. false;
  have_uno = none;
  time_stamp = λ s. pos 0;
  state = state;
  global_player_num = total;
  sent = [];
}

-- The first player is drawn, and all are told of the game and of the round.
unfoldable pub first_round : ℕ → (ℕ → Option ℕ) → Game → Game
first_round draw used g =
    let g' = record g {
      whose_round = seat_number 10 0 0 used (draw % g.player_num);
      sent = g.sent ++ to_everyone 10 0 none (begins (names 10 0 used)) used;
    } in
    let c = cards g.table_card in start_round (c.kind ∷ c.colour ∷ []) used g'

unfoldable pub opening : (ℕ → ℕ) → (ℕ → ℕ) → ℕ → ℕ → (ℕ → Option ℕ) → (ℕ → ℕ) → ℕ → Option Game
opening rand junk draw player_num used state total =
    let dealt = deal_seats 10 0 used (before rand junk player_num state total) in
    elim (table_cards dealt.card_num dealt) [
      | none ↦ none
      | some g ↦ some (first_round draw used g)
    ]
