-- ===== src/Uno/Lobby.antt =====
-- tcpcliserv/final_server.c: main, the thread of the lobby: the list of the connections that are used,
-- a new connection, and the lines of the players in the lobby.
pub mod Rounds
pub mod Sound
use unpv13e.Base.{
  ℕ, zero, suc, ◌+◌, ◌-◌, ◌++◌, List, [], ◌∷◌, Bool, true, false, ◌&&◌, ◌||◌, not, Option, none,
  some, ℤ, pos, negsuc, ◌==◌, ltb, leb, if◌then◌else◌, length,
}
use unpv13e.Uno.Arrays.{update, find_from}
use unpv13e.Uno.Text.{tokens, before_newline, same_text, strtol}
use unpv13e.Uno.Server.{
  Room, Server, Args, Event, Reply, reply, closed, log_in, refused, welcome, logged_in, max_player,
  say,
}

-- used_player_list, in its order, beside the shared state.
pub record Lobby : Type 0 where
  pub used : List ℕ
  pub server : Server

-- FindEmpty: -1 is `none`.
unfoldable pub find_empty : Server → Option ℕ
find_empty s = find_from max_player 0 (λ i. s.state i == 0)

-- HandleLogin: another connection that is used has the name.
unfoldable pub named : ℕ → ℕ → List ℕ → ℕ → Server → Bool
named zero i text who s = false
named (suc k) i text who s =
    (not (s.state i == 0) && (not (i == who) && same_text text (s.name i)))
    || named k (suc i) text who s

unfoldable pub handle_login : List ℕ → ℕ → Server → Bool
handle_login text who s = not (named max_player 0 text who s)

-- The connections without state leave the list.
unfoldable pub prune : (ℕ → ℕ) → List ℕ → List ℕ
prune state [] = []
prune state (i ∷ l) = let rest = prune state l in if state i == 0 then rest else i ∷ rest

-- A new connection has the first free entry, and stands last in the list.
unfoldable pub accepted : ℕ → Lobby → Lobby
accepted i w = record {
  used = w.used ++ i ∷ [];
  server = record w.server {
    state = update w.server.state i 1;
    global_player_num = w.server.global_player_num + 1;
  };
}

-- The player who has gone: the entry is free again.
unfoldable pub departs : ℕ → Server → Server
departs i s = record s {
  state = update s.state i 0;
  global_player_num = s.global_player_num - 1;
  sent = s.sent ++ closed i ∷ [];
}

-- The name fits into its 32 bytes with the null.
unfoldable pub fits : List ℕ → Bool
fits text = ltb (length text) 32

unfoldable pub no_percent : List ℕ → Bool
no_percent [] = true
no_percent (c ∷ r) = not (c == b'%') && no_percent r

unfoldable pub set_name : ℕ → List ℕ → Server → Server
set_name i text s = record s { name = update s.name i text }

-- The thread of the player is given work; the player is in the lobby no more.
unfoldable pub hand_over : ℕ → Option ℕ → Bool → Server → Server
hand_over i room random s = record s {
  handler_arg = update s.handler_arg i (record { room_no = room; owner = i; random = random });
  state = update s.state i 2;
  handler_working = update s.handler_working i true;
}

-- A number of a room is used as an index. -1 is the mark of a new room; other numbers outside of
-- room_data[] lead out of it: `none`.
unfoldable pub to_number : ℕ → ℤ → Server → Option Server
to_number i (pos n) s = if ltb n max_player then some (hand_over i (some n) false s) else none
to_number i (negsuc zero) s = some (hand_over i none false s)
to_number i (negsuc (suc n)) s = none

-- "2 1 id": the name is taken over if no other has it.
unfoldable pub login : ℕ → List (List ℕ) → Server → Option Server
login i [] s = none
login i (kind ∷ []) s = if same_text kind (b'1' ∷ []) then none else some (say i refused s)
login i (kind ∷ text ∷ r) s =
    if same_text kind (b'1' ∷ [])
    then (if handle_login text i s
        then (if fits text then some (set_name i text (say i (logged_in text) s)) else none)
        else some (say i refused s))
    else some (say i refused s)

-- A first word that is no number is a token: AvailableToken takes each. It is the format of a
-- sprintf: `none` with a percent sign.
unfoldable pub token : ℕ → List ℕ → List (List ℕ) → Server → Option Server
token i op [] s = none
token i op (flag ∷ r) s =
    if fits op && no_percent op
    then (let t = set_name i op s in
        some (if same_text flag (b'1' ∷ []) then say i (welcome op) t else t))
    else none

unfoldable pub enter_number : ℕ → List (List ℕ) → Server → Option Server
enter_number i [] s = none
enter_number i (w ∷ r) s = to_number i (strtol w) s

-- The words of a line; `none` where the code reads through a null pointer.
unfoldable pub command : ℕ → List (List ℕ) → Server → Option Server
command i [] s = none
command i ([] ∷ r) s = none
command i ((c ∷ op) ∷ r) s =
    if same_text (c ∷ op) (b'1' ∷ [])
    then some (say i log_in s)
    else if ltb c b'0' || ltb b'9' c
    then token i (c ∷ op) r s
    else if same_text (c ∷ op) (b'2' ∷ [])
    then login i r s
    else if same_text (c ∷ op) (b'3' ∷ [])
    then some (hand_over i none false s)
    else if same_text (c ∷ op) (b'4' ∷ [])
    then enter_number i r s
    else if same_text (c ∷ op) (b'5' ∷ [])
    then some (hand_over i none true s)
    else some s

-- What readline gives for a connection that is ready: [] is the end.
unfoldable pub read_line : ℕ → Option (List ℕ) → Server → Option Server
read_line i none s = some s
read_line i (some []) s = some (departs i s)
read_line i (some (c ∷ l)) s = command i (tokens (before_newline (c ∷ l))) s

-- The list from its front on; only who is in the lobby is read from.
unfoldable pub read_all : (ℕ → Option (List ℕ)) → List ℕ → Server → Option Server
read_all input [] s = some s
read_all input (i ∷ l) s = elim (if s.state i == 1 then read_line i (input i) s else some s) [
  | none ↦ none
  | some t ↦ read_all input l t
]

-- Only what was in the set for select is ready.
unfoldable pub watched : Server → (ℕ → Option (List ℕ)) → ℕ → Option (List ℕ)
watched s input i = if s.state i == 1 then input i else none

unfoldable pub with_server : Lobby → Option Server → Option Lobby
with_server w none = none
with_server w (some s) = some (record w { server = s })

-- A client is waiting; accept succeeds or is interrupted. Without a free entry, or interrupted, the
-- round ends.
unfoldable pub listened : Bool → (ℕ → Option (List ℕ)) → Lobby → Option ℕ → Option Lobby
listened ok input w none = some w
listened ok input w (some i) =
    if ok
    then (let w' = accepted i w in with_server w' (read_all input w'.used w'.server))
    else some w

-- One turn of the loop: the list is cleaned, then come a new connection and the lines. The
-- listening socket is not looked at while all entries are used.
unfoldable pub main_round : Bool → Bool → (ℕ → Option (List ℕ)) → Lobby → Option Lobby
main_round client ok input w =
    let p = record w { used = prune w.server.state w.used } in
    let ready = watched p.server input in
    if ltb p.server.global_player_num max_player && client
    then listened ok ready p (find_empty p.server)
    else with_server p (read_all ready p.used p.server)

-- The start of the server: the arguments are what the arrays hold.
unfoldable pub started : (ℕ → Args) → (ℕ → Args) → (ℕ → List ℕ) → Lobby
started room_arg handler_arg name = record {
  used = [];
  server = record {
    state = λ i. 0;
    name = name;
    rooms = λ n. record {
      new_player = false;
      player_num = 0;
      players = λ j. none;
      used = false;
      in_game = false;
      random = false;
    };
    room_arg = room_arg;
    room_working = λ i. false;
    handler_arg = handler_arg;
    handler_working = λ i. false;
    global_player_num = 0;
    room_num = 0;
    sent = [];
  };
}
