-- ===== src/Uno/Rooms/Random.antt =====
-- tcpcliserv/final_server.c: whether the search for any room comes to an end.
use unpv13e.Base.{
  ℕ, zero, suc, ◌≤◌, ◌≡◌, refl, ◌∙◌, Bool, true, false, ◌&&◌, ◌||◌, not, Option, none, some, leb,
  if◌then◌else◌, arith, Bool-cases, inl, inr, ◌⊎◌,
}
use unpv13e.Uno.Turn.{taken}
use unpv13e.Uno.Server.{Room, Server, max_player}
use unpv13e.Uno.Rooms.{
  Attempt, done, again, join_random, open_room, seek_room, after_search, random_pass, random_loop,
  placed, free_place,
}
use unpv13e.Uno.Rooms.Kept.{AllKept, AttemptKept, placed-AttemptKept}

-- A room that the search gives is not in a game.
abbrev Idle : (ℕ → Room) → Option ℕ → Type 0
Idle rooms none = Unit
Idle rooms (some n) = (rooms n).in_game ≡ false

seek_room-Idle : (k i : ℕ) (f : Option ℕ) (rooms : ℕ → Room) → Idle rooms (seek_room k i f rooms).0
unfolding seek_room
seek_room-Idle zero i f rooms = tt
seek_room-Idle (suc k) i f rooms = elim (Bool-cases (not (rooms i).in_game && (rooms i).random)) [
  | inl here ↦ rw here (ground (arith, here))
  | inr on ↦ rw on (seek_room-Idle k (suc i) _ rooms)
]

-- A free room that it gives is free.
abbrev Free : (ℕ → Room) → Option ℕ → Type 0
Free rooms none = Unit
Free rooms (some n) = (rooms n).used ≡ false

next-Free :
    (rooms : ℕ → Room) (i : ℕ) (f : Option ℕ)
    → Free rooms f
    → Free rooms (if not (rooms i).used && not (taken f) then some i else f)
next-Free rooms i f h = elim (Bool-cases (not (rooms i).used && not (taken f))) [
  | inl e ↦ rw e (ground (arith, e))
  | inr e ↦ rw e h
]

seek_room-Free :
    (k i : ℕ) (f : Option ℕ) (rooms : ℕ → Room)
    → Free rooms f
    → Free rooms (seek_room k i f rooms).1
unfolding seek_room
seek_room-Free zero i f rooms h = h
seek_room-Free (suc k) i f rooms h = elim (Bool-cases (not (rooms i).in_game && (rooms i).random)) [
  | inl here ↦ rw here h
  | inr on ↦ rw on (seek_room-Free k (suc i) _ rooms (next-Free rooms i f h))
]

-- The room for anyone that the search gives, if there is one, cannot take a player.
abbrev pub Blocked : Option ℕ → Server → Type 0
Blocked none s = ⊥
Blocked (some n) s = ((s.rooms n).used ≡ false) ⊎ (9 ≤ (s.rooms n).player_num)

abbrev pub Joinable : Option ℕ → Server → Type 0
Joinable none s = Unit
Joinable (some n) s = ((s.rooms n).used ≡ true) × ((s.rooms n).player_num ≤ 8)

Blocked-again :
    (p : ℕ) (o f : Option ℕ) (s : Server) → Blocked o s → after_search p o f s ≡ some (again s)
unfolding after_search join_random
Blocked-again p none f s b = absurd b
Blocked-again p (some n) f s (inl free) = ground (arith, free)
Blocked-again p (some n) f s (inr many) = ground (arith, many)

random_step :
    (k p : ℕ) (s t : Server)
    → random_pass p s s ≡ some (again t)
    → random_loop (suc k) p s ≡ random_loop k p t
unfolding random_loop
random_step k p s t e = rw (e, random_loop) refl

random_done :
    (k p : ℕ) (s t : Server) → random_pass p s s ≡ some (done t) → random_loop (suc k) p s ≡ some t
unfolding random_loop
random_done k p s t e = rw (e, random_loop) refl

abbrev Done : Option Attempt → Type 0
Done none = ⊥
Done (some (done t)) = Unit
Done (some (again t)) = ⊥

-- What is put in, and what is not `none`, is done.
placed-Done :
    (p n : ℕ) (s : Server) (o : Option ℕ) → AttemptKept (placed p n s o) → Done (placed p n s o)
unfolding placed
placed-Done p n s none k = k
placed-Done p n s (some i) k = tt

done_if : (b : Bool) (s t : Server) → b ≡ false → Done (some (if b then again s else done t))
done_if true s t e = absurd (ground (arith, e))
done_if false s t e = tt

Joinable-Done :
    (p : ℕ) (o f : Option ℕ) (s : Server)
    → AllKept s
    → Idle s.rooms o
    → Free s.rooms f
    → Joinable o s
    → Done (after_search p o f s)
unfolding after_search join_random open_room
Joinable-Done p (some n) f s all idle free (used, few) =
    let test : (not (s.rooms n).used || ((s.rooms n).in_game || leb 9 (s.rooms n).player_num))
        ≡ false =
      ground (arith, used, few, idle) in
    rw test (placed-Done p n s (free_place (s.rooms n)) (placed-AttemptKept p n s all used few))
Joinable-Done p none none s all idle free j = tt
Joinable-Done p none (some n) s all idle free j = done_if (s.rooms n).used s _ free

done_some : (o : Option Attempt) → Done o → (t : Server) × (o ≡ some (done t))
done_some none d = absurd d
done_some (some (done t)) d = (t, refl)
done_some (some (again t)) d = absurd d

pass-Done :
    (p : ℕ) (s : Server)
    → AllKept s
    → Joinable (seek_room max_player 0 none s.rooms).0 s
    → Done (random_pass p s s)
unfolding random_pass
pass-Done p s all j =
    Joinable-Done p (seek_room max_player 0 none s.rooms).0 (seek_room max_player 0 none s.rooms).1
      s all (seek_room-Idle max_player 0 none s.rooms) (seek_room-Free max_player 0 none s.rooms tt)
      j

pass_again :
    (p : ℕ) (s : Server)
    → Blocked (seek_room max_player 0 none s.rooms).0 s
    → random_pass p s s ≡ some (again s)
unfolding random_pass
pass_again p s b =
    Blocked-again p (seek_room max_player 0 none s.rooms).0 (seek_room max_player 0 none s.rooms).1
      s b

stuck :
    (p : ℕ) (s : Server)
    → Blocked (seek_room max_player 0 none s.rooms).0 s
    → (k : ℕ) → random_loop k p s ≡ none
unfolding random_loop
stuck p s b zero = refl
stuck p s b (suc k) = random_step k p s s (pass_again p s b) ∙ stuck p s b k

-- With well-formed rooms and no other thread at work: where the first room for anyone that is not in a
-- game takes players, or there is no such room, the search ends in its first pass; where that room
-- is full, or is no longer used, the search never ends, whatever other rooms there are.
pub random_loop-Ends :
    (p : ℕ) (s : Server)
    → AllKept s
    → (Joinable (seek_room max_player 0 none s.rooms).0 s
        → (k : ℕ) → (t : Server) × (random_loop (suc k) p s ≡ some t))
      × (Blocked (seek_room max_player 0 none s.rooms).0 s → (k : ℕ) → random_loop k p s ≡ none)
random_loop-Ends p s all = (
  λ j k.
      let (t, e) = done_some (random_pass p s s) (pass-Done p s all j) in
      (t, random_done k p s t e),
  λ b k. stuck p s b k,
)
