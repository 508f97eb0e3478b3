-- ===== src/Uno/Rooms.antt =====
-- tcpcliserv/final_server.c: GetInRoom, the thread that brings a player into a room. What is done
-- under the lock of a room is one operation.
pub mod Kept
pub mod Random
pub mod Steps
use unpv13e.Base.{
  ℕ, zero, suc, ◌+◌, ◌-◌, Bool, true, false, ◌&&◌, ◌||◌, not, Option, none, some, ◌==◌, ltb, leb,
  if◌then◌else◌,
}
use unpv13e.Uno.Arrays.{update, find_from}
use unpv13e.Uno.Turn.{taken}
use unpv13e.Uno.Server.{
  Room, Server, Args, no_room, full, playing, Reply, max_player, set_room, say,
}

-- The player is in, or the search starts again. `none`: players[10] is written.
pub data Attempt : Type 0 where
  done : Server → Attempt
  again : Server → Attempt

-- handler_working[tid] = 0; the thread of a player has the player's number.
unfoldable pub idle : ℕ → Server → Server
idle p s = record s { handler_working = update s.handler_working p false }

-- The player is told, and goes back to the lobby.
unfoldable pub turned_away : ℕ → Reply → Server → Server
turned_away p m s = let t = idle p (say p m s) in record t { state = update t.state p 1 }

-- The first free place of a room.
unfoldable pub free_place : Room → Option ℕ
free_place r = find_from 10 0 (λ i. not (taken (r.players i)))

unfoldable pub put_in : ℕ → Room → ℕ → Room
put_in p r i = record r {
  player_num = r.player_num + 1;
  players = update r.players i (some p);
  new_player = true;
}

unfoldable pub placed : ℕ → ℕ → Server → Option ℕ → Option Attempt
placed p n s none = none
placed p n s (some i) =
    let t = set_room n (put_in p (s.rooms n) i) s in
    some (done (idle p (record t { room_num = t.room_num + 1 })))

-- An existing room for anyone, under its lock.
unfoldable pub join_random : ℕ → ℕ → Server → Option Attempt
join_random p n s =
    let r = s.rooms n in
    if not r.used || (r.in_game || leb 9 r.player_num)
    then some (again s)
    else placed p n s (free_place r)

unfoldable pub opened : Bool → ℕ → Room → Room
opened random p r = record r {
  used = true;
  player_num = 1;
  random = random;
  players = update r.players 0 (some p);
  in_game = false;
  new_player = true;
}

-- A new room, under its lock; it is for anyone or not.
unfoldable pub open_room : Bool → ℕ → ℕ → Server → Attempt
open_room random p n s =
    if (s.rooms n).used
    then again s
    else (let t = set_room n (opened random p (s.rooms n)) s in
        done (
          idle p (record t {
            room_num = t.room_num + 1;
            room_arg = update t.room_arg n (record { room_no = some n; owner = 0; random = true });
            room_working = update t.room_working n true;
          })))

-- The first room for anyone that is not in a game, of `k` from `i` on, and the first free room that
-- is seen in front of it.
unfoldable pub seek_room : ℕ → ℕ → Option ℕ → (ℕ → Room) → Option ℕ × Option ℕ
seek_room zero i fittest rooms = (none, fittest)
seek_room (suc k) i fittest rooms =
    let next =
      seek_room k (suc i) (if not (rooms i).used && not (taken fittest) then some i else fittest)
        rooms in
    if not (rooms i).in_game && (rooms i).random then (some i, fittest) else next

-- What the search gave is used on a state that may have changed since.
unfoldable pub after_search : ℕ → Option ℕ → Option ℕ → Server → Option Attempt
after_search p (some n) fittest s = join_random p n s
after_search p none none s = some (done (turned_away p full s))
after_search p none (some n) s = some (open_room true p n s)

-- One pass of the loop for any room: `seen` is the state of the search.
unfoldable pub random_pass : ℕ → Server → Server → Option Attempt
random_pass p seen s =
    let (index, fittest) = seek_room max_player 0 none seen.rooms in after_search p index fittest s

-- The loop, where no other thread does anything meanwhile; `none` where the passes do not suffice.
unfoldable pub random_loop : ℕ → ℕ → Server → Option Server
random_loop zero p s = none
random_loop (suc passes) p s = elim (random_pass p s s) [
  | none ↦ none
  | some (done t) ↦ some t
  | some (again t) ↦ random_loop passes p t
]

unfoldable pub create_at : ℕ → Server → Option ℕ → Attempt
create_at p s none = done (turned_away p full s)
create_at p s (some n) = open_room false p n s

-- A room of one's own: the first that is free.
unfoldable pub create_pass : ℕ → Server → Server → Attempt
create_pass p seen s = create_at p s (find_from max_player 0 (λ n. not (seen.rooms n).used))

-- A room by its number.
unfoldable pub join_room : ℕ → ℕ → Server → Option Attempt
join_room p n s =
    let r = s.rooms n in
    if not r.used || r.random
    then some (done (turned_away p no_room s))
    else if r.in_game
    then some (done (turned_away p playing s))
    else if leb 9 r.player_num
    then some (done (turned_away p full s))
    else placed p n s (free_place r)

-- What a call of the handler does in one pass, on a room's state now.
unfoldable pub get_in_room : ℕ → Args → Server → Server → Option Attempt
get_in_room p a seen s =
    if a.random
    then random_pass p seen s
    else elim a.room_no [ none ↦ some (create_pass p seen s) | some n ↦ join_room p n s ]
