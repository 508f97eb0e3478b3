-- ===== src/Uno/Play.antt =====
-- tcpcliserv/final_server.c: what GameStart does with a player who leaves, chats, plays a card or
-- takes one.
pub mod Effects
pub mod Leave
pub mod Score
pub mod Sound
use unpv13e.Base.{
  ℕ, zero, suc, ◌+◌, ◌-◌, ◌*◌, ◌%◌, ◌++◌, List, [], ◌∷◌, Bool, true, false, ◌&&◌, ◌||◌, not, Option,
  none, some, ◌==◌, ltb, leb, if◌then◌else◌,
}
use unpv13e.Uno.Arrays.{update, sum_below, find_from}
use unpv13e.Uno.Cards.{cards, score, has_name, effect, Effect, skip, turns, draw, plain}
use unpv13e.Uno.Text.{tokens}
use unpv13e.Uno.Turn.{taken, switch_to_next_player}
use unpv13e.Uno.Game.{Game, left, won, closed, tell, tell_players, start_round}
use unpv13e.Uno.Draw.{decrement, give_card_to_player}

-- The game goes on, or it has ended.
pub data Outcome : Type 0 where
  goes : Game → Outcome
  ends : Game → Outcome

unfoldable pub hand_score : (ℕ → Bool) → ℕ
hand_score hand = sum_below 108 (λ q. if hand q then score q else 0)

-- winner_score: the cards of all seats that were used at the start.
unfoldable pub winner_score : (ℕ → Option ℕ) → Game → ℕ
winner_score used g = sum_below 10 (λ k. if taken (used k) then hand_score (g.hand k) else 0)

-- buffer[1] = colour on the name of the card on the table.
unfoldable pub table_text : Game → List ℕ
table_text g = (cards g.table_card).kind ∷ g.colour ∷ []

unfoldable pub set_state : Option ℕ → ℕ → Game → Game
set_state none n g = g
set_state (some conn) n g = record g { state = update g.state conn n }

-- whose_round = SwitchToNextPlayer(whose_round, hand_num, turn)
unfoldable pub pass_turn : Game → Game
pass_turn g = record g { whose_round = switch_to_next_player g.whose_round g.hand_num g.turn }

-- Those that are left have won, each with the same score, and are sent back to the lobby.
unfoldable pub last_wins : ℕ → ℕ → (ℕ → Option ℕ) → ℕ → Game → Game
last_wins zero j used n g = g
last_wins (suc k) j used n g =
    last_wins k (suc j) used n
      (if taken (g.hand_num j) then set_state (used j) 1 (tell (used j) (won (used j) n) g) else g)

-- The connection is closed, or its player goes back to the lobby.
unfoldable pub disconnected : Bool → ℕ → Game → Game
disconnected true conn g = record g {
  state = update g.state conn 0;
  global_player_num = g.global_player_num - 1;
  sent = g.sent ++ closed conn ∷ [];
}
disconnected false conn g = record g { state = update g.state conn 1 }

unfoldable pub taken_out : ℕ → ℕ → Bool → (ℕ → Option ℕ) → Game → Game
taken_out i conn eof used g = tell_players (some i) (left (some conn)) used (
    disconnected eof conn
      (record g { hand_num = update g.hand_num i none; player_num = g.player_num - 1 }))

unfoldable pub leave : ℕ → ℕ → Bool → (ℕ → Option ℕ) → Game → Outcome
leave i conn eof used g =
    let g' = taken_out i conn eof used g in
    if ltb g'.player_num 2
    then ends (last_wins 10 0 used (winner_score used g') g')
    else if i == g'.whose_round
    then goes (start_round (table_text g') used (pass_turn g'))
    else goes g'

-- buffer2[1] = 'x' for a wild card. Behind a name of one byte stands what the buffer held: `none`.
unfoldable pub stored_name : List ℕ → Option (List ℕ)
stored_name [] = none
stored_name (a ∷ []) = if a == b'd' || a == b'e' then none else some (a ∷ [])
stored_name (a ∷ b ∷ r) = some (if a == b'd' || a == b'e' then a ∷ b'x' ∷ r else a ∷ b ∷ r)

unfoldable pub second : List ℕ → ℕ
second [] = 0
second (a ∷ []) = 0
second (a ∷ b ∷ r) = b

-- The first card of that name leaves the hand; where there is none, card_id stays as it was.
unfoldable pub put_down : ℕ → Option ℕ → Game → Game
put_down i none g = g
put_down i (some j) g = record g {
  hand = update g.hand i (update (g.hand i) j false);
  hand_num = update g.hand_num i (decrement (g.hand_num i));
  card_id = some j;
}

-- hand_num[i] <= 0
abbrev pub spent : Option ℕ → Bool
spent none = true
spent (some n) = n == 0

unfoldable pub to_lobby : ℕ → ℕ → (ℕ → Option ℕ) → Game → Game
to_lobby zero j used g = g
to_lobby (suc k) j used g =
    to_lobby k (suc j) used (if taken (g.hand_num j) then set_state (used j) 1 g else g)

unfoldable pub wins : ℕ → (ℕ → Option ℕ) → Game → Game
wins i used g = to_lobby 10 0 used (tell_players none (won (used i) (winner_score used g)) used g)

unfoldable pub reverse_turn : Game → Game
reverse_turn g =
    let g' = record g { turn = (g.turn + 1) % 2 } in if ltb 2 g.player_num then pass_turn g' else g'

-- The next player takes cards and is passed over.
unfoldable pub next_draws : (ℕ → ℕ → ℕ) → (ℕ → Option ℕ) → ℕ → Game → Option Game
next_draws rand used n g =
    let p = pass_turn g in
    elim (give_card_to_player rand used p.whose_round n p) [
      | none ↦ none
      | some g' ↦ some (pass_turn g')
    ]

unfoldable pub take_effect : (ℕ → ℕ → ℕ) → (ℕ → Option ℕ) → Effect → Game → Option Game
take_effect rand used skip g = some (pass_turn (pass_turn g))
take_effect rand used turns g = some (reverse_turn g)
take_effect rand used (draw n) g = next_draws rand used n g
take_effect rand used plain g = some (pass_turn g)

-- The round that follows.
unfoldable pub next_round : List ℕ → (ℕ → Option ℕ) → Option Game → Option Outcome
next_round table used none = none
next_round table used (some g) = some (goes (start_round table used g))

-- The card lies on the table; card_id is read.
unfoldable pub laid : (ℕ → ℕ → ℕ) → ℕ → List ℕ → (ℕ → Option ℕ) → Game → Option ℕ → Option Outcome
laid rand i text used g none = none
laid rand i text used g (some c) =
    let t = record g { table_card = c; colour = second text } in
    if spent (t.hand_num i)
    then some (ends (wins i used t))
    else next_round text used (take_effect rand used (effect c) t)

unfoldable pub play_named :
    (ℕ → ℕ → ℕ) → ℕ → List ℕ → (ℕ → Option ℕ) → Game → Option (List ℕ) → Option Outcome
play_named rand i text used g none = none
play_named rand i text used g (some name) =
    let p = put_down i (find_from 108 0 (λ j. g.hand i j && has_name j name)) g in
    laid rand i text used p p.card_id

-- "9 card": `none` where the line has no second word.
unfoldable pub play : (ℕ → ℕ → ℕ) → ℕ → List (List ℕ) → (ℕ → Option ℕ) → Game → Option Outcome
play rand i [] used g = none
play rand i (op ∷ []) used g = none
play rand i (op ∷ text ∷ r) used g = play_named rand i text used g (stored_name text)

-- "10": the player whose turn it is takes a card.
unfoldable pub take_card : (ℕ → ℕ → ℕ) → (ℕ → Option ℕ) → Game → Option Outcome
take_card rand used g = elim (give_card_to_player rand used g.whose_round 1 g) [
  | none ↦ none
  | some g' ↦ let p = pass_turn g' in next_round (table_text p) used (some p)
]
