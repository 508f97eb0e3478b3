-- ===== src/Uno/Rooms/Kept.antt =====
-- tcpcliserv/final_server.c: the rooms stay well-formed whatever the threads do, in any order.
use unpv13e.Base.{
  ℕ, ◌-◌, ◌≤◌, ◌<◌, ◌≡◌, refl, ◌∙◌, Bool, true, false, ◌||◌, not, Option, none, some, ◌==◌, leb,
  arith, Bool-cases, inl, inr,
}
use unpv13e.Uno.Arrays.{
  update, count_below, count_ext, count_on, count_off, count_none, count_all_off, all_on, FindsFrom,
  find_from-FindsFrom,
}
use unpv13e.Uno.Turn.{taken}
use unpv13e.Uno.Server.{no_room, full, playing, Room, Server, Args, Reply, set_room, say}
use unpv13e.Uno.Rooms.{
  Attempt, done, again, idle, turned_away, free_place, put_in, placed, join_random, opened,
  open_room, after_search, join_room, random_pass, create_pass, create_at, get_in_room,
}
use unpv13e.Uno.Process.{vacated, cleared}

-- The number of players is right; a room that is used has one to nine players, a free one none.
pub record IsKept (r : Room) : Type 0 where
  pub counted : count_below 10 (λ i. taken (r.players i)) ≡ r.player_num
  pub free : r.used ≡ false → r.player_num ≡ 0
  pub filled : r.used ≡ true → (1 ≤ r.player_num) × (r.player_num ≤ 9)

put_in-IsKept :
    (p i : ℕ) (r : Room)
    → IsKept r
    → i < 10
    → taken (r.players i) ≡ false
    → r.used ≡ true
    → r.player_num ≤ 8
    → IsKept (put_in p r i)
unfolding put_in
put_in-IsKept p i r k lt empty used few = record {
  counted =
      count_ext 10 _ _ (λ j l. ground arith)
      ∙ count_on 10 (λ j. taken (r.players j)) i lt empty
      ∙ omega (arith, k.counted);
  free = λ e. absurd (ground (arith, e, used));
  filled = λ e. (omega arith, omega arith);
}

opened-IsKept :
    (random : Bool) (p : ℕ) (r : Room) → IsKept r → r.used ≡ false → IsKept (opened random p r)
unfolding opened
opened-IsKept random p r k unused = record {
  counted =
      let none_in = count_none 10 (λ j. taken (r.players j)) (k.counted ∙ k.free unused) in
      count_ext 10 _ _ (λ j l. ground arith)
      ∙ count_on 10 (λ j. taken (r.players j)) 0 (omega arith) (none_in 0 (omega arith))
      ∙ omega (arith, k.counted, k.free unused);
  free = λ e. absurd (ground (arith, e));
  filled = λ e. (omega arith, omega arith);
}

pub vacated-IsKept :
    (i : ℕ) (r : Room) → IsKept r → i < 10 → taken (r.players i) ≡ true → IsKept (vacated i r)
unfolding vacated
vacated-IsKept i r k lt on =
    let c = count_off 10 (λ j. taken (r.players j)) i lt on in
    record {
      counted =
          count_ext 10 (λ j. taken (update r.players i none j))
            (update (λ j. taken (r.players j)) i false) (λ j l. ground arith)
          ∙ omega (arith, c, k.counted);
      free = λ e. elim (Bool-cases (r.player_num - 1 == 0)) [
        | inl z ↦ ground (arith, z)
        | inr more ↦ ground (arith, more, k.free, e)
      ];
      filled = λ e. elim (Bool-cases (r.player_num - 1 == 0)) [
        | inl z ↦ absurd (ground (arith, z, e))
        | inr more ↦ ground (arith, more, k.filled, e)
      ];
    }

pub cleared-IsKept : (r : Room) → IsKept (cleared r)
unfolding cleared
cleared-IsKept r = record {
  counted = count_all_off 10 _ (λ j l. refl);
  free = λ e. refl;
  filled = λ e. absurd (ground (arith, e));
}

abbrev pub AllKept : Server → Type 0
AllKept s = (n : ℕ) → IsKept (s.rooms n)

-- Of what an operation comes to.
abbrev pub AttemptKept : Option Attempt → Type 0
AttemptKept none = ⊥
AttemptKept (some (done s)) = AllKept s
AttemptKept (some (again s)) = AllKept s

pub set_room-AllKept :
    (n : ℕ) (r : Room) (s : Server) → AllKept s → IsKept r → AllKept (set_room n r s)
unfolding set_room
set_room-AllKept n r s all k m = elim (Bool-cases (m == n)) [
  | inl at ↦ rw at k
  | inr off ↦ rw off (all m)
]

turned_away-AllKept : (p : ℕ) (m : Reply) (s : Server) → AllKept s → AllKept (turned_away p m s)
unfolding turned_away idle say
turned_away-AllKept p m s all = all

-- A room with eight players at most has a place.
place_found :
    (r : Room) (o : Option ℕ)
    → IsKept r
    → r.player_num ≤ 8
    → FindsFrom 10 0 (λ i. not (taken (r.players i))) o
    → (i : ℕ) × (o ≡ some i) × (i < 10) × (taken (r.players i) ≡ false)
place_found r (some i) k few (lo, hi, t, first) = (i, refl, omega arith, ground (arith, t))
place_found r none k few f = absurd (
    omega (
      arith,
      k.counted,
      all_on 10 (λ i. taken (r.players i)) (λ j l. ground (arith, f j (omega arith) (omega arith))),
    ))

pub placed-AttemptKept :
    (p n : ℕ) (s : Server)
    → AllKept s
    → (s.rooms n).used ≡ true
    → (s.rooms n).player_num ≤ 8
    → AttemptKept (placed p n s (free_place (s.rooms n)))
unfolding placed idle free_place
placed-AttemptKept p n s all used few =
    let (i, found, lt, empty) =
      place_found (s.rooms n) _ (all n) few
        (find_from-FindsFrom 10 0 (λ j. not (taken ((s.rooms n).players j)))) in
    rw found (
      set_room-AllKept n (put_in p (s.rooms n) i) s all
        (put_in-IsKept p i (s.rooms n) (all n) lt empty used few))

join_random-AttemptKept : (p n : ℕ) (s : Server) → AllKept s → AttemptKept (join_random p n s)
unfolding join_random
join_random-AttemptKept p n s all =
    elim (Bool-cases
      (not (s.rooms n).used || ((s.rooms n).in_game || leb 9 (s.rooms n).player_num))) [
        | inl bad ↦ rw bad all
        | inr good ↦
            rw good (placed-AttemptKept p n s all (ground (arith, good)) (ground (arith, good)))
      ]

open_room-AttemptKept :
    (random : Bool) (p n : ℕ) (s : Server) → AllKept s → AttemptKept (some (open_room random p n s))
unfolding open_room idle opened
open_room-AttemptKept random p n s all = elim (Bool-cases (s.rooms n).used) [
  | inl used ↦ rw used all
  | inr free ↦ rw free (
      set_room-AllKept n (opened random p (s.rooms n)) s all
        (opened-IsKept random p (s.rooms n) (all n) free))
]

after_search-AttemptKept :
    (p : ℕ) (o f : Option ℕ) (s : Server) → AllKept s → AttemptKept (after_search p o f s)
unfolding after_search
after_search-AttemptKept p (some n) f s all = join_random-AttemptKept p n s all
after_search-AttemptKept p none none s all = turned_away-AllKept p full s all
after_search-AttemptKept p none (some n) s all = open_room-AttemptKept true p n s all

create_at-AttemptKept :
    (p : ℕ) (s : Server) (o : Option ℕ) → AllKept s → AttemptKept (some (create_at p s o))
unfolding create_at
create_at-AttemptKept p s none all = turned_away-AllKept p full s all
create_at-AttemptKept p s (some n) all = open_room-AttemptKept false p n s all

join_room-AttemptKept : (p n : ℕ) (s : Server) → AllKept s → AttemptKept (join_room p n s)
unfolding join_room free_place
join_room-AttemptKept p n s all = elim (Bool-cases (not (s.rooms n).used || (s.rooms n).random)) [
  | inl bad ↦ rw bad (turned_away-AllKept p no_room s all)
  | inr good ↦ elim (Bool-cases (s.rooms n).in_game) [
    | inl bad ↦ rw (good, bad) (turned_away-AllKept p playing s all)
    | inr idle_room ↦ elim (Bool-cases (leb 9 (s.rooms n).player_num)) [
      | inl bad ↦ rw (good, idle_room, bad) (turned_away-AllKept p full s all)
      | inr few ↦
          rw (good, idle_room, few)
            (placed-AttemptKept p n s all (ground (arith, good)) (ground (arith, few)))
    ]
  ]
]

numbered :
    (p : ℕ) (o : Option ℕ) (c : Attempt) (s : Server)
    → AttemptKept (some c)
    → AllKept s
    → AttemptKept (elim o [ none ↦ some c | some n ↦ join_room p n s ])
numbered p none c s k all = k
numbered p (some n) c s k all = join_room-AttemptKept p n s all

-- Whatever the search saw, also where other threads have changed the rooms since: one pass of the
-- thread that brings a player into a room keeps every room well-formed, and always finds a place
-- where it puts the player in: players[10] is not written.
pub get_in_room-AttemptKept :
    (p : ℕ) (a : Args) (seen s : Server) → AllKept s → AttemptKept (get_in_room p a seen s)
unfolding get_in_room random_pass create_pass
get_in_room-AttemptKept p a seen s all = elim (Bool-cases a.random) [
  | inl any ↦ rw any (after_search-AttemptKept p _ _ s all)
  | inr own ↦
      rw own (numbered p a.room_no (create_pass p seen s) s (create_at-AttemptKept p s _ all) all)
]
