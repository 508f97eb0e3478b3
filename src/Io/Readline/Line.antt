-- ===== src/Io/Readline/Line.antt =====
-- What a line is: the specification of `readline`, with no buffer and no system call.
use unpv13e.Base.{
  ℕ, zero, suc, ◌≤◌, List, [], ◌∷◌, Bool, true, false, ◌==◌, length, if◌then◌else◌, arith,
}
use unpv13e.Io.Readline.{newline}

-- The bytes up to and with the first newline, `k` at most.
unfoldable pub take_line : ℕ → List ℕ → List ℕ
take_line zero s = []
take_line (suc k) [] = []
take_line (suc k) (c ∷ s) = if c == newline then c ∷ [] else c ∷ take_line k s

unfoldable pub drop_line : ℕ → List ℕ → List ℕ
drop_line zero s = s
drop_line (suc k) [] = []
drop_line (suc k) (c ∷ s) = if c == newline then s else drop_line k s

-- There are `k` bytes, and none of them is a newline.
unfoldable pub is_cut : ℕ → List ℕ → Bool
is_cut zero s = true
is_cut (suc k) [] = false
is_cut (suc k) (c ∷ s) = if c == newline then false else is_cut k s

pub length-take_line : (k : ℕ) (s : List ℕ) → length (take_line k s) ≤ k
unfolding take_line
length-take_line zero s = omega arith
length-take_line (suc k) [] = omega arith
length-take_line (suc k) (c ∷ s) = ground (arith, length-take_line k s)
