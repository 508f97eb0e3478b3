-- ===== src/Uno/Arrays.antt =====
-- tcpcliserv/final_server.c: its arrays as functions on the index, with counts and sums over them.
use unpv13e.Base.{
  ℕ, zero, suc, ◌+◌, ◌≤◌, ◌<◌, ◌≡◌, refl, Bool, true, false, Option, none, some, ◌==◌,
  if◌then◌else◌, arith, inl, inr, Bool-cases,
}

module _ {ℓ} {A : Type ℓ} where
  abbrev pub update : (ℕ → A) → ℕ → A → ℕ → A
  update f i a j = if j == i then a else f j

unfoldable pub count_below : ℕ → (ℕ → Bool) → ℕ
count_below zero p = 0
count_below (suc n) p = count_below n p + (if p n then 1 else 0)

unfoldable pub sum_below : ℕ → (ℕ → ℕ) → ℕ
sum_below zero f = 0
sum_below (suc n) f = sum_below n f + f n

-- The first index that passes the test, out of `k` from `i` on.
unfoldable pub find_from : ℕ → ℕ → (ℕ → Bool) → Option ℕ
find_from zero i p = none
find_from (suc k) i p = let rest = find_from k (suc i) p in if p i then some i else rest

pub count_ext :
    (n : ℕ) (p q : ℕ → Bool) → ((i : ℕ) → i < n → p i ≡ q i) → count_below n p ≡ count_below n q
unfolding count_below
count_ext zero p q h = refl
count_ext (suc n) p q h =
    ground (arith, count_ext n p q (λ i (lt : i < n). h i (omega arith)), h n (omega arith))

pub count_on :
    (n : ℕ) (p : ℕ → Bool) (i : ℕ)
    → i < n
    → p i ≡ false
    → count_below n (update p i true) ≡ suc (count_below n p)
unfolding count_below
count_on zero p i h e = absurd (omega arith)
count_on (suc n) p i h e = elim (Bool-cases (i == n)) [
  | inl last ↦
      ground (arith, last, count_ext n p (update p i true) (λ j (lt : j < n). ground (arith, last)))
  | inr other ↦ ground (arith, other, count_on n p i (ground (arith, other)) e)
]

pub count_off :
    (n : ℕ) (p : ℕ → Bool) (i : ℕ)
    → i < n
    → p i ≡ true
    → suc (count_below n (update p i false)) ≡ count_below n p
unfolding count_below
count_off zero p i h e = absurd (omega arith)
count_off (suc n) p i h e = elim (Bool-cases (i == n)) [
  | inl last ↦
      ground
        (arith, last, count_ext n p (update p i false) (λ j (lt : j < n). ground (arith, last)))
  | inr other ↦ ground (arith, other, count_off n p i (ground (arith, other)) e)
]

pub count-le : (n : ℕ) (p : ℕ → Bool) → count_below n p ≤ n
unfolding count_below
count-le zero p = omega arith
count-le (suc n) p = ground (arith, count-le n p)

-- Nothing passes where the count is 0.
pub count_none : (n : ℕ) (p : ℕ → Bool) → count_below n p ≡ 0 → (i : ℕ) → i < n → p i ≡ false
unfolding count_below
count_none zero p e i h = absurd (omega arith)
count_none (suc n) p e i h = elim (Bool-cases (i == n)) [
  | inl last ↦ ground (arith, last)
  | inr other ↦ ground (arith, other, count_none n p (ground arith) i (ground (arith, other)))
]

pub count_all_off : (n : ℕ) (p : ℕ → Bool) → ((i : ℕ) → i < n → p i ≡ false) → count_below n p ≡ 0
unfolding count_below
count_all_off zero p h = refl
count_all_off (suc n) p h =
    ground (arith, count_all_off n p (λ i (lt : i < n). h i (omega arith)), h n (omega arith))

pub all_on : (n : ℕ) (p : ℕ → Bool) → ((i : ℕ) → i < n → p i ≡ true) → count_below n p ≡ n
unfolding count_below
all_on zero p h = refl
all_on (suc n) p h =
    ground (arith, all_on n p (λ i (lt : i < n). h i (omega arith)), h n (omega arith))

-- What `find_from` finds is the first that passes, or nothing passes.
abbrev pub FindsFrom : ℕ → ℕ → (ℕ → Bool) → Option ℕ → Type 0
FindsFrom k i p none = (j : ℕ) → i ≤ j → j < i + k → p j ≡ false
FindsFrom k i p (some m) =
    (i ≤ m) × (m < i + k) × (p m ≡ true) × ((j : ℕ) → i ≤ j → j < m → p j ≡ false)

shift_none :
    (k i : ℕ) (p : ℕ → Bool) → p i ≡ false → FindsFrom k (suc i) p none → FindsFrom (suc k) i p none
shift_none k i p e h j lo hi = elim (Bool-cases (j == i)) [
  | inl at ↦ ground (arith, at)
  | inr off ↦ h j (ground (arith, off)) (omega arith)
]

shift_some :
    (k i : ℕ) (p : ℕ → Bool) (m : ℕ)
    → p i ≡ false
    → FindsFrom k (suc i) p (some m)
    → FindsFrom (suc k) i p (some m)
shift_some k i p m e (lo, hi, t, first) = (
  omega arith,
  omega arith,
  t,
  λ j jlo jhi. elim (Bool-cases (j == i)) [
    | inl at ↦ ground (arith, at)
    | inr off ↦ first j (ground (arith, off)) jhi
  ],
)

shift :
    (k i : ℕ) (p : ℕ → Bool) (o : Option ℕ)
    → p i ≡ false
    → FindsFrom k (suc i) p o
    → FindsFrom (suc k) i p o
shift k i p none e h = shift_none k i p e h
shift k i p (some m) e h = shift_some k i p m e h

pub find_from-FindsFrom : (k i : ℕ) (p : ℕ → Bool) → FindsFrom k i p (find_from k i p)
unfolding find_from
find_from-FindsFrom zero i p = λ j lo hi. absurd (omega arith)
find_from-FindsFrom (suc k) i p = elim (Bool-cases (p i)) [
  | inl t ↦ rw t (omega arith, omega arith, t, λ j lo hi. absurd (omega arith))
  | inr f ↦ rw f (shift k i p (find_from k (suc i) p) f (find_from-FindsFrom k (suc i) p))
]
