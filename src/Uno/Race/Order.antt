-- ===== src/Uno/Race/Order.antt =====
-- tcpcliserv/final_server.c: which call of "uno" was the first.
use unpv13e.Base.{
  ℕ, zero, suc, ◌+◌, ◌≤◌, ◌<◌, ◌≡◌, ◌≢◌, refl, subst, true, false, ◌&&◌, ◌||◌, not, ltb_ℤ, ◌==◌,
  if◌then◌else◌, arith, Bool-cases, inl, inr,
}
use unpv13e.Uno.Turn.{taken}
use unpv13e.Uno.Game.{Game}
use unpv13e.Uno.Race.{same_stamp, fastest_from, fastest}

-- Seat 0 and the seats that play are looked at.
abbrev pub Candidate : ℕ → Game → Type 0
Candidate j g = (j == 0 || taken (g.hand_num j)) ≡ true

-- No candidate below `n` was earlier than `f`, and where `f` is not `h`, it was earlier than `h`.
pub record IsFirst (h n : ℕ) (g : Game) (f : ℕ) : Type 0 where
  pub one : Candidate f g
  pub below : f < n
  pub least : (j : ℕ) → j < n → Candidate j g → ltb_ℤ (g.time_stamp j) (g.time_stamp f) ≡ false
  pub tie : h < n → Candidate h g → f ≢ h → ltb_ℤ (g.time_stamp f) (g.time_stamp h) ≡ true

-- The choice between the seat so far and seat `i`.
abbrev chosen : ℕ → ℕ → ℕ → Game → ℕ
chosen i h f g =
    if not (taken (g.hand_num i))
    then f
    else if ltb_ℤ (g.time_stamp i) (g.time_stamp f)
    then i
    else if same_stamp (g.time_stamp i) (g.time_stamp f) && i == h
    then i
    else f

chosen-IsFirst :
    (i h f : ℕ) (g : Game) → 1 ≤ i → IsFirst h i g f → IsFirst h (suc i) g (chosen i h f g)
chosen-IsFirst i h f g pos s = record {
  one = ground (arith, s.one);
  below = ground (arith, s.below);
  least = λ j lt c. elim (Bool-cases (j == i)) [
    | inl at ↦ ground (arith, at, c)
    | inr off ↦ ground (arith, s.least j (ground (arith, off)) c)
  ];
  tie = λ lt c ne. elim (Bool-cases (h == i)) [
    | inl at ↦ ground (arith, at, c, ne)
    | inr off ↦ elim (Bool-cases (f == h)) [
      | inl same ↦ ground (arith, same, off, ne)
      | inr other ↦
          ground
            (arith, other, off, ne, s.tie (ground (arith, off)) c (λ e. ground (arith, other, e)))
    ]
  ];
}

fastest_from-IsFirst :
    (k i h f : ℕ) (g : Game)
    → i + k ≡ 10
    → 1 ≤ i
    → IsFirst h i g f
    → IsFirst h 10 g (fastest_from k i h f g)
unfolding fastest_from
fastest_from-IsFirst zero i h f g e pos s = subst (λ n. IsFirst h n g f) (omega arith) s
fastest_from-IsFirst (suc k) i h f g e pos s =
    fastest_from-IsFirst k (suc i) h (chosen i h f g) g (omega arith) (omega arith)
      (chosen-IsFirst i h f g pos s)

-- The seat that is taken for the fastest has the least timestamp of seat 0 and the seats that play,
-- and the seat for which was called wins each tie.
pub fastest-IsFirst : (h : ℕ) (g : Game) → IsFirst h 10 g (fastest h g)
unfolding fastest
fastest-IsFirst h g = fastest_from-IsFirst 9 1 h 0 g refl (omega arith) (record {
  one = refl;
  below = omega arith;
  least = λ j lt c. ground arith;
  tie = λ lt c ne. absurd (ne (omega arith));
})
