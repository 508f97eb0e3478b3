-- ===== src/Uno/Process.antt =====
-- tcpcliserv/final_server.c: RoomProcess, the thread of a room, around the game that it starts.
use unpv13e.Base.{
  ℕ, zero, suc, ◌-◌, ◌++◌, List, [], ◌∷◌, Bool, true, false, ◌&&◌, not, Option, none, some, ◌==◌,
  ltb, if◌then◌else◌,
}
use unpv13e.Uno.Arrays.{update, find_from}
use unpv13e.Uno.Turn.{taken}
use unpv13e.Uno.Game.{is_seat}
use unpv13e.Uno.Server.{
  Room, Server, Event, Reply, reply, closed, entered, joined, gone, owner_is, too_few, set_room,
}

-- The variables of the thread number `tid`.
pub record Proc : Type 0 where
  pub room_no : ℕ
  pub owner : ℕ
  pub used : ℕ → Option ℕ
  pub player_num : ℕ

pub record World : Type 0 where
  pub proc : Proc
  pub server : Server

-- room_no = room_arg[tid].room_no and owner = room_arg[tid].owner, with all of used[] -1.
unfoldable pub begin : ℕ → ℕ → Server → Proc
begin room_no left_over s = record {
  room_no = room_no;
  owner = (s.room_arg room_no).owner;
  used = λ i. none;
  player_num = left_over;
}

unfoldable pub to_conn : Option ℕ → Reply → List Event
to_conn none m = []
to_conn (some conn) m = reply conn m ∷ []

-- SendToEveryone, for the lines of a room.
unfoldable pub to_room : ℕ → ℕ → Option ℕ → Reply → (ℕ → Option ℕ) → List Event
to_room zero i who m used = []
to_room (suc k) i who m used =
    (if is_seat who i then [] else to_conn (used i) m) ++ to_room k (suc i) who m used

unfoldable pub tell_room : Option ℕ → Reply → World → World
tell_room who m w = record w {
  server = record w.server { sent = w.server.sent ++ to_room 10 0 who m w.proc.used };
}

-- The players in the room but its owner, of the first nine places.
unfoldable pub others : ℕ → ℕ → Proc → Room → List (Option ℕ)
others zero j p r = []
others (suc k) j p r =
    let rest = others k (suc j) p r in
    if taken (p.used j) && not (j == p.owner) then r.players j ∷ rest else rest

-- The player `c` at place `i` comes in: the player is told of the room, and the room of the player.
unfoldable pub comes_in : ℕ → ℕ → World → World
comes_in i c w =
    let p = w.proc in
    let r = w.server.rooms p.room_no in
    let p' = record p { player_num = r.player_num; used = update p.used i (some c) } in
    let line = entered p.room_no (r.players p.owner) (others 9 0 p r) in
    tell_room (some i) (joined (some c))
      (record { proc = p'; server = record w.server { sent = w.server.sent ++ reply c line ∷ [] } })

-- players[i] that is not -1, whose state is 2, and that is not in used[].
unfoldable pub admit_at : ℕ → Option ℕ → World → World
admit_at i none w = w
admit_at i (some c) w =
    if w.server.state c == 2 && not (taken (w.proc.used i)) then comes_in i c w else w

unfoldable pub admit_from : ℕ → ℕ → World → World
admit_from zero i w = w
admit_from (suc k) i w =
    admit_from k (suc i) (admit_at i ((w.server.rooms w.proc.room_no).players i) w)

-- Under the lock of the room: the new players are looked for where the flag says so.
unfoldable pub admit : World → World
admit w =
    if (w.server.rooms w.proc.room_no).new_player
    then (let w' = admit_from 10 0 w in
        let n = w'.proc.room_no in
        record w' {
          server = set_room n (record (w'.server.rooms n) { new_player = false }) w'.server;
        })
    else w

unfoldable pub gone_state : Bool → ℕ → Server → Server
gone_state true c s = record s {
  state = update s.state c 0;
  global_player_num = s.global_player_num - 1;
  sent = s.sent ++ closed c ∷ [];
}
gone_state false c s = record s { state = update s.state c 1 }

-- players[i] = -1 and one player fewer; a room without players is free. Under the lock.
unfoldable pub vacated : ℕ → Room → Room
vacated i r =
    let n = r.player_num - 1 in
    record r {
      players = update r.players i none;
      player_num = n;
      used = if n == 0 then false else r.used;
    }

unfoldable pub next_owner : ℕ → Proc → Option ℕ
next_owner i p = find_from 10 0 (λ j. not (j == i) && taken (p.used j))

unfoldable pub or_owner : ℕ → Option ℕ → ℕ
or_owner owner none = owner
or_owner owner (some j) = j

-- The others are told of a new owner, or of the player who has gone.
unfoldable pub told_gone : ℕ → World → World
told_gone i w =
    let p = w.proc in
    let w' : World =
      if i == p.owner
      then (let p' = record p { owner = or_owner p.owner (next_owner i p) } in
          tell_room (some i) (owner_is (p.used p'.owner)) (record w { proc = p' }))
      else tell_room (some i) (gone (p.used i)) w in
    record w' { proc = record w'.proc { used = update w'.proc.used i none } }

-- Without players in the room the thread has no work.
unfoldable pub without_work : ℕ → ℕ → Server → Server
without_work n left s =
    if left == 0 then record s { room_working = update s.room_working n false } else s

unfoldable pub taken_away : ℕ → ℕ → Bool → World → World
taken_away i c eof w =
    let n = w.proc.room_no in
    let s = gone_state eof c w.server in
    let r = vacated i (s.rooms n) in
    record {
      proc = record w.proc { player_num = r.player_num };
      server = without_work n r.player_num (set_room n r s);
    }

-- The player at place `i` leaves, over connection `c`. The others are told; the last one leaves the
-- room free, and the thread without work. The number of a room is that of its thread.
unfoldable pub leave_room : ℕ → ℕ → Bool → World → World
leave_room i c eof w =
    let w' = taken_away i c eof w in if w'.proc.player_num == 0 then w' else told_gone i w'

-- The game may begin, for two players or more; in_game is set.
unfoldable pub start_game : World → World × Bool
start_game w =
    if ltb w.proc.player_num 2
    then (tell_room none too_few w, false)
    else (let n = w.proc.room_no in
        (
          record w { server = set_room n (record (w.server.rooms n) { in_game = true }) w.server },
          true,
        ))

-- After the game: the room is free.
unfoldable pub cleared : Room → Room
cleared r = record r {
  player_num = 0;
  used = false;
  in_game = false;
  random = false;
  players = λ j. none;
}

unfoldable pub end_game : World → World
end_game w =
    let n = w.proc.room_no in
    let s = set_room n (cleared (w.server.rooms n)) w.server in
    record w { server = record s { room_working = update s.room_working n false } }

-- Behind the loop, and without the lock.
unfoldable pub finish : World → World
finish w =
    let n = w.proc.room_no in
    let s = set_room n (record (w.server.rooms n) { random = false }) w.server in
    record w { server = record s { room_num = s.room_num - 1 } }
