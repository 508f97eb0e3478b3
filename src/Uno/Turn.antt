-- ===== src/Uno/Turn.antt =====
-- tcpcliserv/final_server.c: SwitchToNextPlayer. A seat whose number of cards is -1 is `none`.
use unpv13e.Base.{
  ℕ, zero, suc, ◌+◌, ◌-◌, ◌*◌, ◌%◌, ◌≤◌, ◌<◌, ◌≡◌, ◌≢◌, refl, sym, ap, ◌∙◌, subst, Bool, true,
  false, Option, none, some, ◌==◌, ltb, if◌then◌else◌, arith, Bool-cases, ◌⊎◌, inl, inr,
}

-- used[i] != -1, hand_num[i] != -1, players[i] != -1
abbrev pub taken : Option ℕ → Bool
taken none = false
taken (some n) = true

-- From seat `j` on, `step` seats at a time, until a seat plays or the seat is `w` again.
unfoldable pub seek : (ℕ → Option ℕ) → ℕ → ℕ → ℕ → ℕ → ℕ
seek hand_num step zero w j = w
seek hand_num step (suc fuel) w j =
    let rest = seek hand_num step fuel w ((j + step) % 10) in
    if j == w then w else if taken (hand_num j) then j else rest

-- One seat on, or nine, which is one back.
unfoldable pub step_of : ℕ → ℕ
step_of turn = if turn == 0 then 1 else 9

-- There are ten seats: ten rounds are enough.
unfoldable pub switch_to_next_player : ℕ → (ℕ → Option ℕ) → ℕ → ℕ
switch_to_next_player whose_round hand_num turn =
    seek hand_num (step_of turn) 10 whose_round ((whose_round + step_of turn) % 10)

-- The seat `k` places on from `w`, in the direction.
abbrev pub place : ℕ → ℕ → ℕ → ℕ
place turn w k = if turn == 0 then (w + k) % 10 else (w + 9 * k) % 10

-- `r` is the nearest seat that plays, `k` places on; or nobody else plays and `r` is `w`.
abbrev pub NextSeat : (ℕ → Option ℕ) → ℕ → ℕ → ℕ → Type 0
NextSeat hand_num turn w r =
    ((k : ℕ) × (1 ≤ k)
      × (k < 10)
      × (r ≡ place turn w k)
      × (taken (hand_num r) ≡ true)
      × ((m : ℕ) → 1 ≤ m → m < k → taken (hand_num (place turn w m)) ≡ false))
    ⊎ ((r ≡ w) × ((j : ℕ) → j < 10 → j ≢ w → taken (hand_num j) ≡ false))

place_zero : (turn w : ℕ) → w < 10 → place turn w 10 ≡ w
place_zero turn w h = ground arith

place_next : (turn w k : ℕ) → (place turn w k + step_of turn) % 10 ≡ place turn w (suc k)
unfolding step_of
place_next turn w k = ground arith

place_first : (turn w : ℕ) → (w + step_of turn) % 10 ≡ place turn w 1
unfolding step_of
place_first turn w = ground arith

place_off : (turn w k : ℕ) → w < 10 → 1 ≤ k → k < 10 → (place turn w k == w) ≡ false
place_off turn w k h lo hi = ground arith

-- How many places on a seat is.
abbrev pub distance : ℕ → ℕ → ℕ → ℕ
distance turn w j = if turn == 0 then (j + 10 - w) % 10 else (w + 10 - j) % 10

place-distance : (turn w j : ℕ) → w < 10 → j < 10 → place turn w (distance turn w j) ≡ j
place-distance turn w j h hj = ground arith

distance_pos : (turn w j : ℕ) → w < 10 → j < 10 → j ≢ w → 1 ≤ distance turn w j
distance_pos turn w j h hj ne = ground arith

distance_lt : (turn w j : ℕ) → distance turn w j < 10
distance_lt turn w j = ground arith

module _ (hand_num : ℕ → Option ℕ) (turn w : ℕ) (h : w < 10) where
  nobody :
      ((m : ℕ) → 1 ≤ m → m < 10 → taken (hand_num (place turn w m)) ≡ false)
      → NextSeat hand_num turn w w
  nobody all = inr (
    refl,
    λ j hj ne.
        subst (λ s. taken (hand_num s) ≡ false) (place-distance turn w j h hj)
          (all (distance turn w j) (distance_pos turn w j h hj ne) (distance_lt turn w j)),
  )

  extend :
      (k : ℕ)
      → ((m : ℕ) → 1 ≤ m → m < k → taken (hand_num (place turn w m)) ≡ false)
      → taken (hand_num (place turn w k)) ≡ false
      → (m : ℕ) → 1 ≤ m
      → m < suc k
      → taken (hand_num (place turn w m)) ≡ false
  extend k before off m lo hi = elim (Bool-cases (m == k)) [
    | inl at ↦ subst (λ s. taken (hand_num (place turn w s)) ≡ false) (ground (arith, at)) off
    | inr ne ↦ before m lo (ground (arith, ne))
  ]

  seek-NextSeat :
      (fuel k : ℕ)
      → k + fuel ≡ 11
      → 1 ≤ k
      → k ≤ 10
      → ((m : ℕ) → 1 ≤ m → m < k → taken (hand_num (place turn w m)) ≡ false)
      → NextSeat hand_num turn w (seek hand_num (step_of turn) fuel w (place turn w k))
  unfolding seek
  seek-NextSeat zero k e lo hi before = absurd (omega arith)
  seek-NextSeat (suc zero) k e lo hi before =
      let k10 : k ≡ 10 = omega arith in
      rw (k10, place_zero turn w h)
        (ground (arith, nobody (λ m mlo mhi. before m mlo (omega arith))))
  seek-NextSeat (suc (suc fuel)) k e lo hi before =
      rw (place_off turn w k h lo (omega arith))
        (elim (Bool-cases (taken (hand_num (place turn w k)))) [
          | inl on ↦ rw on (inl (k, lo, omega arith, refl, on, before))
          | inr off ↦
              rw (off, place_next turn w k)
                (seek-NextSeat (suc fuel) (suc k) (omega arith) (omega arith) (omega arith)
                  (extend k before off))
        ])

  -- From a seat of the ten, in either direction: the turn goes to the nearest seat that plays, and
  -- stays exactly where no other seat plays.
  pub switch_to_next_player-NextSeat :
      NextSeat hand_num turn w (switch_to_next_player w hand_num turn)
  unfolding switch_to_next_player
  switch_to_next_player-NextSeat =
      rw (place_first turn w)
        (seek-NextSeat 10 1 refl (omega arith) (omega arith) (λ m lo hi. absurd (omega arith)))

  -- What `NextSeat` allows is one seat.
  NextSeat-unique :
      (k r : ℕ)
      → 1 ≤ k
      → k < 10
      → taken (hand_num (place turn w k)) ≡ true
      → ((m : ℕ) → 1 ≤ m → m < k → taken (hand_num (place turn w m)) ≡ false)
      → NextSeat hand_num turn w r
      → r ≡ place turn w k
  NextSeat-unique k r lo hi on before (inr (e, all)) = absurd (
      ground (
        arith,
        all (place turn w k) (ground arith) (λ e. ground (arith, place_off turn w k h lo hi, e)),
        on,
      ))
  NextSeat-unique k r lo hi on before (inl (k', lo', hi', e, on', before')) =
      elim (Bool-cases (ltb k k')) [
        | inl less ↦ ground (arith, less, before' k lo (ground (arith, less)), on)
        | inr more ↦ elim (Bool-cases (ltb k' k)) [
          | inl over ↦ ground (arith, over, before k' lo' (ground (arith, over)), on', e)
          | inr same ↦ e ∙ ap (place turn w) (ground (arith, more, same))
        ]
      ]

-- Seen from the seat `k` places on, with the turn the other way.
place_back :
    (turn w k m : ℕ)
    → turn < 2
    → w < 10
    → m ≤ k
    → k < 10
    → place (1 - turn) (place turn w k) m ≡ place turn w (k - m)
place_back turn w k m ht h le lt = ground arith

place_back_self :
    (turn w k : ℕ) → turn < 2 → w < 10 → k < 10 → place (1 - turn) (place turn w k) k ≡ w
place_back_self turn w k ht h hi = ground arith

pub place_lt : (turn w k : ℕ) → place turn w k < 10
place_lt turn w k = ground arith

stays :
    (hand_num : ℕ → Option ℕ) (turn w r : ℕ)
    → w < 10
    → ((j : ℕ) → j < 10 → j ≢ w → taken (hand_num j) ≡ false)
    → NextSeat hand_num turn w r
    → r ≡ w
stays hand_num turn w r h all (inr (e, same)) = e
stays hand_num turn w r h all (inl (k, lo, hi, e, on, before)) = absurd (
    ground (
      arith,
      all r (ground (arith, e, place_lt turn w k))
          (λ same. ground (arith, place_off turn w k h lo hi, e, same)),
      on,
    ))

module _ (hand_num : ℕ → Option ℕ) (turn w : ℕ) (ht : turn < 2) (h : w < 10) where
  back :
      (r : ℕ)
      → taken (hand_num w) ≡ true
      → NextSeat hand_num turn w r
      → switch_to_next_player r hand_num (1 - turn) ≡ w
  back r on (inr (e, all)) =
      rw e (
        stays hand_num (1 - turn) w _ h all
          (switch_to_next_player-NextSeat hand_num (1 - turn) w h))
  back r on (inl (k, lo, hi, e, on', before)) =
      let home = place_back_self turn w k ht h hi in
      rw e (
        NextSeat-unique hand_num (1 - turn) (place turn w k) (place_lt turn w k) k _ lo hi
          (subst (λ s. taken (hand_num s) ≡ true) (sym home) on)
          (λ m mlo mhi.
            subst (λ s. taken (hand_num s) ≡ false)
              (sym (place_back turn w k m ht h (omega arith) hi))
              (before (k - m) (omega arith) (omega arith)))
          (switch_to_next_player-NextSeat hand_num (1 - turn) (place turn w k) (place_lt turn w k))
        ∙ home)

  -- Where the seat whose turn it is plays, the next player's next player with the turn reversed is
  -- that seat again.
  pub switch_to_next_player_back :
      taken (hand_num w) ≡ true
      → switch_to_next_player (switch_to_next_player w hand_num turn) hand_num (1 - turn) ≡ w
  switch_to_next_player_back on = back _ on (switch_to_next_player-NextSeat hand_num turn w h)
