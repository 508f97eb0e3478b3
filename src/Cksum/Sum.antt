-- ===== src/Cksum/Sum.antt =====
-- libfree/in_cksum.c: the sum of the words, and its folding.
use unpv13e.Base.{
  ℕ, zero, suc, ◌+◌, ◌*◌, ◌%◌, ◌^◌, ◌≤◌, ◌<◌, ◌≡◌, ◌⊎◌, ◌∙◌, List, [], ◌∷◌, ◌++◌, arith, length,
}
use unpv13e.Cksum.{word, add_words, add_carries}

-- The sum of the words, an odd byte with a zero behind it.
unfoldable pub total : List ℕ → ℕ
total [] = 0
total (a ∷ []) = a
total (a ∷ b ∷ bs) = word a b + total bs

unfoldable pub AllBytes : List ℕ → Type 0
AllBytes [] = Unit
AllBytes (b ∷ bs) = (b < 256) × AllBytes bs

-- Twice the sum is at most 65535 for each byte, and a byte more.
pub total_le : (bs : List ℕ) → AllBytes bs → 2 * total bs ≤ 65535 * (length bs + 1)
unfolding total AllBytes
total_le [] h = omega arith
total_le (a ∷ []) (h, hs) = omega arith
total_le (a ∷ b ∷ bs) (ha, (hb, hs)) = omega (arith, total_le bs hs)

-- The accumulator holds the sum where that fits in 32 bits.
pub add_words_lem :
    (sum : ℕ) (bs : List ℕ) → sum + total bs < 2 ^ 32 → add_words sum bs ≡ sum + total bs
unfolding total add_words
add_words_lem sum [] h = omega arith
add_words_lem sum (a ∷ []) h = omega arith
add_words_lem sum (a ∷ b ∷ bs) h =
    let fits : (sum + word a b) % 2 ^ 32 ≡ sum + word a b = omega arith in
    rw fits (add_words_lem (sum + word a b) bs (omega arith) ∙ omega arith)

-- A sum of words in front of words: the front must be whole.
pub total-append :
    (n : ℕ) (xs ys : List ℕ) → length xs ≡ 2 * n → total (xs ++ ys) ≡ total xs + total ys
unfolding total
total-append n [] ys e = omega arith
total-append n (a ∷ []) ys e = absurd (omega arith)
total-append zero (a ∷ b ∷ xs) ys e = absurd (omega arith)
total-append (suc n) (a ∷ b ∷ xs) ys e = omega (arith, total-append n xs ys (omega arith))

-- A folded sum, in the 16 bits that are kept: the same modulo 65535, and 0 for 0 alone.
pub record Folded (s f : ℕ) : Type 0 where
  pub small : f ≤ 65535
  pub same : f % 65535 ≡ s % 65535
  pub zero_iff : ((s ≡ 0) × (f ≡ 0)) ⊎ ((0 < s) × (0 < f))

pub add_carries-Folded : (s : ℕ) → s < 2 ^ 32 → Folded s (add_carries s % 2 ^ 16)
add_carries-Folded s h = record { small = omega arith; same = omega arith; zero_iff = ground arith }
