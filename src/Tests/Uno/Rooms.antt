-- ===== src/Tests/Uno/Rooms.antt =====
-- What is proved of the rooms and the lobby, from the start of the server on.
use unpv13e.Base.{ℕ, suc, ◌≡◌, refl, [], true, Option, none, some}
use unpv13e.Uno.Server.{Server, Args, max_player}
use unpv13e.Uno.Rooms.{
  Attempt, done, again, get_in_room, random_loop, random_pass, seek_room, after_search, open_room,
}
use unpv13e.Uno.Rooms.Kept.{AllKept}
use unpv13e.Uno.Rooms.Steps.{at_start, step_to, handles, admits, world, Reach-AllKept}
use unpv13e.Uno.Rooms.Random.{Joinable, Blocked, random_loop-Ends}
use unpv13e.Uno.Process.{Proc, admit}
use unpv13e.Uno.Lobby.{Lobby, started, main_round}
use unpv13e.Uno.Lobby.Rounds.{SoundOr, started-IsSound, started-AllKept, main_round-SoundOr}

abbrev any_room : Args
any_room = record { room_no = none; owner = 0; random = true }

abbrev fresh : Lobby
fresh = started (λ i. any_room) (λ i. any_room) (λ i. [])

abbrev state_of : Option Attempt → Server → Server
state_of none s = s
state_of (some (done t)) s = t
state_of (some (again t)) s = s

fresh-AllKept : AllKept fresh.server
fresh-AllKept = started-AllKept (λ i. any_room) (λ i. any_room) (λ i. [])

-- Player 4 opens the first room, and its thread lets the player in.
abbrev one_room : Server
one_room = state_of (get_in_room 4 any_room fresh.server fresh.server) fresh.server

abbrev room_process : Proc
room_process = record { room_no = 0; owner = 0; used = λ i. none; player_num = 0 }

opens : get_in_room 4 any_room fresh.server fresh.server ≡ some (done one_room)
unfolding get_in_room random_pass seek_room after_search open_room started
opens = refl

Reach-AllKept_example : AllKept (admit (world room_process one_room)).server
Reach-AllKept_example =
    Reach-AllKept fresh-AllKept (
      step_to (step_to at_start (handles 4 any_room fresh.server opens)) (admits room_process refl))

random_loop-Ends_example :
    (Joinable (seek_room max_player 0 none fresh.server.rooms).0 fresh.server
      → (k : ℕ) → (t : Server) × (random_loop (suc k) 4 fresh.server ≡ some t))
    × (Blocked (seek_room max_player 0 none fresh.server.rooms).0 fresh.server
        → (k : ℕ) → random_loop k 4 fresh.server ≡ none)
random_loop-Ends_example = random_loop-Ends 4 fresh.server fresh-AllKept

-- A first client comes.
main_round-SoundOr_example : SoundOr (main_round true true (λ i. none) fresh)
main_round-SoundOr_example =
    main_round-SoundOr true true (λ i. none) fresh
      (started-IsSound (λ i. any_room) (λ i. any_room) (λ i. []))
