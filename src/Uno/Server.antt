-- ===== src/Uno/Server.antt =====
-- tcpcliserv/final_server.c: the state that the threads of the server share.
use unpv13e.Base.{ℕ, List, [], ◌∷◌, ◌++◌, Bool, Option}
use unpv13e.Uno.Arrays.{update}

-- room_data[i]; an entry of players[] that is -1 is `none`.
pub record Room : Type 0 where
  pub new_player : Bool
  pub player_num : ℕ
  pub players : ℕ → Option ℕ
  pub used : Bool
  pub in_game : Bool
  pub random : Bool

-- room_arg[i] and handler_arg[i]; a room number of -1 is `none`.
pub record Args : Type 0 where
  pub room_no : Option ℕ
  pub owner : ℕ
  pub random : Bool

-- The lines that are sent outside a game. A player is named by the index into conns[].
pub data Reply : Type 0 where
  -- "1", "3", "4 name", and "2" followed by "4 name"
  log_in : Reply
  refused : Reply
  welcome : List ℕ → Reply
  logged_in : List ℕ → Reply
  -- "16", "17", "18"
  no_room : Reply
  full : Reply
  playing : Reply
  -- "5 room owner names", "6 name", "7 name", "8 name", "19"
  entered : ℕ → Option ℕ → List (Option ℕ) → Reply
  joined : Option ℕ → Reply
  gone : Option ℕ → Reply
  owner_is : Option ℕ → Reply
  too_few : Reply

pub data Event : Type 0 where
  reply : ℕ → Reply → Event
  closed : ℕ → Event

-- `name` holds the names of conns[].
pub record Server : Type 0 where
  pub state : ℕ → ℕ
  pub name : ℕ → List ℕ
  pub rooms : ℕ → Room
  pub room_arg : ℕ → Args
  pub room_working : ℕ → Bool
  pub handler_arg : ℕ → Args
  pub handler_working : ℕ → Bool
  pub global_player_num : ℕ
  pub room_num : ℕ
  pub sent : List Event

abbrev pub max_player : ℕ
max_player = 45

unfoldable pub set_room : ℕ → Room → Server → Server
set_room i r s = record s { rooms = update s.rooms i r }

unfoldable pub say : ℕ → Reply → Server → Server
say conn m s = record s { sent = s.sent ++ reply conn m ∷ [] }
