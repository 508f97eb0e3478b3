-- ===== src/Uno/Shuffle.antt =====
-- tcpcliserv/final_server.c: shuffle. What rand() answers for the place `i` is a parameter.
use unpv13e.Base.{
  ℕ, zero, suc, ◌+◌, ◌-◌, ◌%◌, ◌≤◌, ◌<◌, ◌≡◌, sym, ap, ◌∙◌, ltb, ◌==◌, if◌then◌else◌, arith, ◌⊎◌,
  inl, inr,
}
use unpv13e.Uno.Arrays.{update}

unfoldable pub swap : (ℕ → ℕ) → ℕ → ℕ → ℕ → ℕ
swap array i j = update (update array i (array j)) j (array i)

-- array[i] = i below `size`.
unfoldable pub in_order : (ℕ → ℕ) → ℕ → ℕ → ℕ
in_order array zero = array
in_order array (suc n) = update (in_order array n) n n

-- The swaps of the places i, i - 1, ..., 1.
unfoldable pub swaps : (ℕ → ℕ) → (ℕ → ℕ) → ℕ → ℕ → ℕ
unfolding swap
swaps rand array zero = array
swaps rand array (suc i) = swaps rand (swap array (suc i) (rand (suc i) % (suc i + 1))) i

unfoldable pub shuffle : (ℕ → ℕ) → (ℕ → ℕ) → ℕ → ℕ → ℕ
unfolding in_order swaps
shuffle rand array size = swaps rand (in_order array size) (size - 1)

-- The first `n` entries are the numbers below `n`, each once; the entries behind are those of `a`.
pub record IsShuffled (a : ℕ → ℕ) (n : ℕ) (f : ℕ → ℕ) : Type 0 where
  pub below : (i : ℕ) → i < n → f i < n
  pub once : (i j : ℕ) → i < n → j < n → f i ≡ f j → i ≡ j
  pub all : (v : ℕ) → v < n → (i : ℕ) × (i < n) × (f i ≡ v)
  pub behind : (i : ℕ) → n ≤ i → f i ≡ a i

in_order_lem : (a : ℕ → ℕ) (n i : ℕ) → in_order a n i ≡ (if ltb i n then i else a i)
unfolding in_order
in_order_lem a zero i = ground arith
in_order_lem a (suc n) i = ground (arith, in_order_lem a n i)

in_order-IsShuffled : (a : ℕ → ℕ) (n : ℕ) → IsShuffled a n (in_order a n)
in_order-IsShuffled a n = record {
  below = λ i h. ground (arith, in_order_lem a n i);
  once = λ i j h k e. ground (arith, in_order_lem a n i, in_order_lem a n j);
  all = λ v h. (v, h, ground (arith, in_order_lem a n v));
  behind = λ i h. ground (arith, in_order_lem a n i);
}

-- Where an entry is after a swap.
abbrev moved : ℕ → ℕ → ℕ → ℕ
moved i j k = if k == i then j else if k == j then i else k

moved-lt : (n i j k : ℕ) → i < n → j < n → k < n → moved i j k < n
moved-lt n i j k hi hj hk = ground arith

moved_twice : (i j k : ℕ) → moved i j (moved i j k) ≡ k
moved_twice i j k = ground arith

swap_lem : (f : ℕ → ℕ) (i j k : ℕ) → swap f i j k ≡ f (moved i j k)
unfolding swap
swap_lem f i j k = ground arith

swap-IsShuffled :
    (a : ℕ → ℕ) (n : ℕ) (f : ℕ → ℕ) (i j : ℕ)
    → i < n
    → j < n
    → IsShuffled a n f
    → IsShuffled a n (swap f i j)
swap-IsShuffled a n f i j hi hj s = record {
  below = λ k h. rw (swap_lem f i j k) (s.below (moved i j k) (moved-lt n i j k hi hj h));
  once = λ k l hk hl e.
      let same =
        s.once (moved i j k) (moved i j l) (moved-lt n i j k hi hj hk) (moved-lt n i j l hi hj hl)
          (sym (swap_lem f i j k) ∙ e ∙ swap_lem f i j l) in
      sym (moved_twice i j k) ∙ ap (moved i j) same ∙ moved_twice i j l;
  all = λ v h.
      let (k, hk, e) = s.all v h in
      (
        moved i j k,
        moved-lt n i j k hi hj hk,
        swap_lem f i j (moved i j k) ∙ ap f (moved_twice i j k) ∙ e,
      );
  behind = λ k h. swap_lem f i j k ∙ ap f (ground arith) ∙ s.behind k h;
}

swaps-IsShuffled :
    (rand a : ℕ → ℕ) (n : ℕ) (f : ℕ → ℕ) (i : ℕ)
    → (i < n) ⊎ (i ≡ 0)
    → IsShuffled a n f
    → IsShuffled a n (swaps rand f i)
unfolding swaps
swaps-IsShuffled rand a n f zero h s = s
swaps-IsShuffled rand a n f (suc i) (inr e) s = absurd (omega arith)
swaps-IsShuffled rand a n f (suc i) (inl h) s =
    swaps-IsShuffled rand a n (swap f (suc i) (rand (suc i) % (suc i + 1))) i (inl (omega arith))
      (swap-IsShuffled a n f (suc i) (rand (suc i) % (suc i + 1)) h (grind arith) s)

-- Whatever rand() answers, `shuffle` leaves in the first `size` places the numbers below `size`,
-- each of them once, and the other places as they were.
pub shuffle-IsShuffled :
    (rand array : ℕ → ℕ) (size : ℕ) → IsShuffled array size (shuffle rand array size)
unfolding shuffle
shuffle-IsShuffled rand array size =
    swaps-IsShuffled rand array size _ (size - 1) (ground arith) (in_order-IsShuffled array size)
