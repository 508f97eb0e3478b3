-- ===== src/Cksum.antt =====
-- libfree/in_cksum.c: the Internet checksum, on a host whose first byte of a word is its low one.
pub mod Sum
pub mod Laws
use unpv13e.Base.{ℕ, ◌+◌, ◌-◌, ◌*◌, ◌/◌, ◌%◌, ◌^◌, List, [], ◌∷◌}

-- The 16-bit word at two bytes.
abbrev pub word : ℕ → ℕ → ℕ
word a b = a + 256 * b

-- The `while` and the odd byte behind it, into the 32-bit accumulator.
pub add_words : ℕ → List ℕ → ℕ
add_words sum [] = sum
add_words sum (a ∷ []) = (sum + word a 0) % 2 ^ 32
add_words sum (a ∷ b ∷ bs) = add_words ((sum + word a b) % 2 ^ 32) bs

-- The two additions of the carries.
abbrev pub add_carries : ℕ → ℕ
add_carries sum =
    let folded = (sum / 2 ^ 16 + sum % 2 ^ 16) % 2 ^ 32 in (folded + folded / 2 ^ 16) % 2 ^ 32

-- `~sum`, truncated to 16 bits.
abbrev pub complement : ℕ → ℕ
complement sum = 2 ^ 16 - 1 - sum % 2 ^ 16

-- `len` is the number of the bytes.
unfoldable pub in_cksum : List ℕ → ℕ
unfolding add_words
in_cksum bs = complement (add_carries (add_words 0 bs))
