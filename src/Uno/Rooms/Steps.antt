-- ===== src/Uno/Rooms/Steps.antt =====
-- tcpcliserv/final_server.c: the threads' operations on the rooms, in any order.
use unpv13e.Base.{
  ℕ, zero, suc, ◌<◌, ◌≡◌, refl, sym, subst, ◌∙◌, Bool, true, false, Option, none, some, ◌==◌, ltb,
  arith, Bool-cases, inl, inr,
}
use unpv13e.Uno.Arrays.{update}
use unpv13e.Uno.Turn.{taken}
use unpv13e.Uno.Server.{Room, Server, Args, set_room}
use unpv13e.Uno.Rooms.{done, get_in_room}
use unpv13e.Uno.Rooms.Kept.{
  IsKept, AllKept, AttemptKept, set_room-AllKept, vacated-IsKept, cleared-IsKept,
  get_in_room-AttemptKept,
}
use unpv13e.Uno.Process.{
  Proc, World, admit, admit_at, admit_from, comes_in, tell_room, leave_room, gone_state,
  without_work, taken_away, vacated, told_gone, start_game, end_game, cleared, finish,
}

abbrev pub world : Proc → Server → World
world p s = record { proc = p; server = s }

-- One operation of some thread. The handler works with what it saw of the rooms at some time, the
-- thread of a room with its own variables; a player who leaves a room has a place there. The last
-- constructor is for all that the main thread and a game do, which is not in the rooms.
pub data Step (s : Server) (t : Server) : Type 0 where
  handles : (p : ℕ) (a : Args) (seen : Server) → (get_in_room p a seen s ≡ some (done t)) → Step s t
  admits : (p : Proc) → t ≡ (admit (world p s)).server → Step s t
  leaves :
      (p : Proc) (i c : ℕ) (eof : Bool)
      → i < 10
      → taken ((s.rooms p.room_no).players i) ≡ true
      → t ≡ (leave_room i c eof (world p s)).server
      → Step s t
  starts : (p : Proc) → t ≡ (start_game (world p s)).0.server → Step s t
  ends : (p : Proc) → t ≡ (end_game (world p s)).server → Step s t
  finishes : (p : Proc) → t ≡ (finish (world p s)).server → Step s t
  elsewhere : t.rooms ≡ s.rooms → Step s t

pub data Reach (s : Server) : Server → Type 0 where
  at_start : Reach s s
  step_to : {t u : Server} → Reach s t → Step t u → Reach s u

flag-IsKept : (b : Bool) (r : Room) → IsKept r → IsKept (record r { new_player = b })
flag-IsKept b r k = record { counted = k.counted; free = k.free; filled = k.filled }

in_game-IsKept : (b : Bool) (r : Room) → IsKept r → IsKept (record r { in_game = b })
in_game-IsKept b r k = record { counted = k.counted; free = k.free; filled = k.filled }

random-IsKept : (b : Bool) (r : Room) → IsKept r → IsKept (record r { random = b })
random-IsKept b r k = record { counted = k.counted; free = k.free; filled = k.filled }

admit_at_rooms : (i : ℕ) (o : Option ℕ) (w : World) → (admit_at i o w).server.rooms ≡ w.server.rooms
unfolding admit_at comes_in tell_room
admit_at_rooms i none w = refl
admit_at_rooms i (some c) w = ground arith

admit_from_rooms : (k i : ℕ) (w : World) → (admit_from k i w).server.rooms ≡ w.server.rooms
unfolding admit_from
admit_from_rooms zero i w = refl
admit_from_rooms (suc k) i w =
    admit_from_rooms k (suc i) (admit_at i ((w.server.rooms w.proc.room_no).players i) w)
    ∙ admit_at_rooms i ((w.server.rooms w.proc.room_no).players i) w

kept_of : (s t : Server) → t.rooms ≡ s.rooms → AllKept s → AllKept t
kept_of s t e all n = subst (λ f. IsKept (f n)) (sym e) (all n)

admit-AllKept : (w : World) → AllKept w.server → AllKept (admit w).server
unfolding admit
admit-AllKept w all = elim (Bool-cases (w.server.rooms w.proc.room_no).new_player) [
  | inl e ↦
      let t = admit_from 10 0 w in
      let kept = kept_of w.server t.server (admit_from_rooms 10 0 w) all in
      rw e (
        set_room-AllKept t.proc.room_no
          (record (t.server.rooms t.proc.room_no) { new_player = false }) t.server kept
          (flag-IsKept false (t.server.rooms t.proc.room_no) (kept t.proc.room_no)))
  | inr e ↦ rw e all
]

told_gone_rooms : (i : ℕ) (w : World) → (told_gone i w).server.rooms ≡ w.server.rooms
unfolding told_gone tell_room
told_gone_rooms i w = ground arith

taken_away_rooms :
    (i c : ℕ) (eof : Bool) (w : World)
    → (taken_away i c eof w).server.rooms
      ≡ update w.server.rooms w.proc.room_no (vacated i (w.server.rooms w.proc.room_no))
unfolding taken_away gone_state set_room without_work
taken_away_rooms i c true w = ground arith
taken_away_rooms i c false w = ground arith

leave_room-AllKept :
    (i c : ℕ) (eof : Bool) (w : World)
    → i < 10
    → taken ((w.server.rooms w.proc.room_no).players i) ≡ true
    → AllKept w.server
    → AllKept (leave_room i c eof w).server
unfolding leave_room set_room
leave_room-AllKept i c eof w lt on all =
    let n = w.proc.room_no in
    let t = taken_away i c eof w in
    let kept =
      kept_of (set_room n (vacated i (w.server.rooms n)) w.server) t.server
        (taken_away_rooms i c eof w)
        (set_room-AllKept n (vacated i (w.server.rooms n)) w.server all
          (vacated-IsKept i (w.server.rooms n) (all n) lt on)) in
    elim (Bool-cases (t.proc.player_num == 0)) [
      | inl e ↦ rw e kept
      | inr e ↦ rw e (kept_of t.server (told_gone i t).server (told_gone_rooms i t) kept)
    ]

start_game-AllKept : (w : World) → AllKept w.server → AllKept (start_game w).0.server
unfolding start_game tell_room
start_game-AllKept w all = elim (Bool-cases (ltb w.proc.player_num 2)) [
  | inl e ↦ rw e all
  | inr e ↦
      let n = w.proc.room_no in
      rw e (
        set_room-AllKept n (record (w.server.rooms n) { in_game = true }) w.server all
          (in_game-IsKept true (w.server.rooms n) (all n)))
]

end_game-AllKept : (w : World) → AllKept w.server → AllKept (end_game w).server
unfolding end_game
end_game-AllKept w all =
    let n = w.proc.room_no in
    set_room-AllKept n (cleared (w.server.rooms n)) w.server all (cleared-IsKept (w.server.rooms n))

finish-AllKept : (w : World) → AllKept w.server → AllKept (finish w).server
unfolding finish
finish-AllKept w all =
    let n = w.proc.room_no in
    set_room-AllKept n (record (w.server.rooms n) { random = false }) w.server all
      (random-IsKept false (w.server.rooms n) (all n))

Step-AllKept : {s t : Server} → Step s t → AllKept s → AllKept t
Step-AllKept {s} {t} (handles p a seen e) all =
    subst AttemptKept e (get_in_room-AttemptKept p a seen s all)
Step-AllKept {s} {t} (admits p e) all = rw e (admit-AllKept (world p s) all)
Step-AllKept {s} {t} (leaves p i c eof lt on e) all =
    rw e (leave_room-AllKept i c eof (world p s) lt on all)
Step-AllKept {s} {t} (starts p e) all = rw e (start_game-AllKept (world p s) all)
Step-AllKept {s} {t} (ends p e) all = rw e (end_game-AllKept (world p s) all)
Step-AllKept {s} {t} (finishes p e) all = rw e (finish-AllKept (world p s) all)
Step-AllKept {s} {t} (elsewhere e) all = kept_of s t e all

-- In whatever order the threads come: from well-formed rooms, after any number of operations of the
-- handlers, with whatever they saw before, and of the rooms' threads, each room has as many players
-- as it says, one to nine if it is used and none if it is free.
pub Reach-AllKept : {s t : Server} → AllKept s → Reach s t → AllKept t
Reach-AllKept all at_start = all
Reach-AllKept all (step_to r st) = Step-AllKept st (Reach-AllKept all r)
