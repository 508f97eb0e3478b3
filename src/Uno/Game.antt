-- ===== src/Uno/Game.antt =====
-- tcpcliserv/final_server.c: the state of a game in a room, and what the server sends.
use unpv13e.Base.{
  ℕ, zero, suc, List, [], ◌∷◌, ◌++◌, Bool, false, ◌&&◌, ◌||◌, not, Option, none, some, ℤ, ◌==◌,
  if◌then◌else◌,
}
use unpv13e.Uno.Turn.{taken}

-- The lines that are sent, by their number in the protocol. A player is named by the index into
-- conns[] whose name is printed.
pub data Msg : Type 0 where
  -- "9 names", "10 card card_num turn name counts hand"
  begins : List (Option ℕ) → Msg
  turn_of : List ℕ → ℕ → ℕ → Option ℕ → List (Option ℕ) → List ℕ → Msg
  -- "7 name", "11 name", "12 card", "13 name name", "14 name", "15 name score"
  left : Option ℕ → Msg
  wrong_uno : Option ℕ → Msg
  drawn : ℕ → Msg
  caught : ℕ → ℕ → Msg
  uno : Option ℕ → Msg
  won : Option ℕ → ℕ → Msg
  -- "19 name name", "20", a line of the chat
  wrong_catch : Option ℕ → List ℕ → Msg
  reshuffled : Msg
  chat : List ℕ → Msg

pub data Sent : Type 0 where
  to_conn : ℕ → Msg → Sent
  closed : ℕ → Sent

-- The variables of GameStart, the state of each connection, the number of players of the server,
-- and what was sent. A count of cards, a seat or an id of -1 is `none`, and so is `card_id` before
-- its first value; whether a seat holds a card is hand[seat][card] == 1.
pub record Game : Type 0 where
  pub hand : ℕ → ℕ → Bool
  pub hand_num : ℕ → Option ℕ
  pub card_seq : ℕ → ℕ
  pub card_num : ℕ
  pub whose_round : ℕ
  pub turn : ℕ
  pub table_card : ℕ
  pub colour : ℕ
  pub player_num : ℕ
  pub card_id : Option ℕ
  pub is_uno : ℕ → Bool
  pub have_uno : Option ℕ
  pub time_stamp : ℕ → ℤ
  pub state : ℕ → ℕ
  pub global_player_num : ℕ
  pub sent : List Sent

-- One line to the connection of a seat.
unfoldable pub to_seat : Option ℕ → Msg → List Sent
to_seat none m = []
to_seat (some conn) m = to_conn conn m ∷ []

unfoldable pub is_seat : Option ℕ → ℕ → Bool
is_seat none i = false
is_seat (some who) i = who == i

-- SendToEveryone: to the seats of a room that are used, but `who`; `k` seats from `i` on.
unfoldable pub to_everyone : ℕ → ℕ → Option ℕ → Msg → (ℕ → Option ℕ) → List Sent
unfolding to_seat is_seat
to_everyone zero i who m used = []
to_everyone (suc k) i who m used =
    (if is_seat who i then [] else to_seat (used i) m) ++ to_everyone k (suc i) who m used

-- SendToEveryoneInGame: to those of them that still play.
unfoldable pub to_players : ℕ → ℕ → Option ℕ → Msg → (ℕ → Option ℕ) → (ℕ → Option ℕ) → List Sent
unfolding to_seat is_seat
to_players zero i who m used hand_num = []
to_players (suc k) i who m used hand_num =
    (if is_seat who i || not (taken (hand_num i)) then [] else to_seat (used i) m)
    ++ to_players k (suc i) who m used hand_num

unfoldable pub tell_players : Option ℕ → Msg → (ℕ → Option ℕ) → Game → Game
unfolding to_players
tell_players who m used g = record g { sent = g.sent ++ to_players 10 0 who m used g.hand_num }

unfoldable pub tell : Option ℕ → Msg → Game → Game
unfolding to_seat
tell conn m g = record g { sent = g.sent ++ to_seat conn m }

-- The numbers of cards of the seats that are used.
unfoldable pub counts : ℕ → ℕ → (ℕ → Option ℕ) → (ℕ → Option ℕ) → List (Option ℕ)
counts zero i used hand_num = []
counts (suc k) i used hand_num =
    let rest = counts k (suc i) used hand_num in if taken (used i) then hand_num i ∷ rest else rest

-- The cards of a hand, by id.
unfoldable pub held_cards : ℕ → ℕ → (ℕ → Bool) → List ℕ
held_cards zero j hand = []
held_cards (suc k) j hand =
    let rest = held_cards k (suc j) hand in if hand j then j ∷ rest else rest

unfoldable pub round_lines : ℕ → ℕ → List ℕ → (ℕ → Option ℕ) → Game → List Sent
unfolding to_seat counts held_cards
round_lines zero i table used g = []
round_lines (suc k) i table used g =
    (if taken (used i) && taken (g.hand_num i)
      then to_seat (used i) (
          turn_of table g.card_num g.turn (used g.whose_round) (counts 10 0 used g.hand_num)
            (held_cards 108 0 (g.hand i)))
      else [])
    ++ round_lines k (suc i) table used g

-- StartRound: each player is told the table, whose turn it is, the counts, and the own hand.
unfoldable pub start_round : List ℕ → (ℕ → Option ℕ) → Game → Game
unfolding round_lines
start_round table used g = record g { sent = g.sent ++ round_lines 10 0 table used g }
