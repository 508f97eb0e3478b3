-- ===== src/Tests/Cksum.antt =====
-- libfree/in_cksum.c at the bytes of the example in RFC 1071.
use unpv13e.Base.{ℕ, ◌/◌, ◌%◌, ◌-◌, ◌≡◌, refl, List, [], ◌∷◌, ◌++◌, arith}
use unpv13e.Cksum.{in_cksum}
use unpv13e.Cksum.Sum.{total, AllBytes, Folded}
use unpv13e.Cksum.Laws.{in_cksum-Folded, in_cksum-verifies}

abbrev front : List ℕ
front = 0 ∷ 1 ∷ 242 ∷ 3 ∷ []

abbrev back : List ℕ
back = 244 ∷ 245 ∷ 246 ∷ 247 ∷ []

sum_of_8 : in_cksum (front ++ back) ≡ 65535 - 62173
unfolding in_cksum
sum_of_8 = refl

odd_byte : in_cksum (1 ∷ 2 ∷ 3 ∷ []) ≡ 65535 - 516
unfolding in_cksum
odd_byte = refl

front-AllBytes : AllBytes front
unfolding AllBytes
front-AllBytes = (omega arith, (omega arith, (omega arith, (omega arith, tt))))

back-AllBytes : AllBytes back
unfolding AllBytes
back-AllBytes = (omega arith, (omega arith, (omega arith, (omega arith, tt))))

in_cksum-Folded_example : (f : ℕ) × (in_cksum back ≡ 65535 - f) × Folded (total back) f
in_cksum-Folded_example = in_cksum-Folded back back-AllBytes (omega arith)

in_cksum-verifies_example :
    let c = in_cksum (front ++ (0 ∷ 0 ∷ back)) in in_cksum (front ++ (c % 256 ∷ c / 256 ∷ back)) ≡ 0
in_cksum-verifies_example =
    in_cksum-verifies 2 front back front-AllBytes back-AllBytes refl (omega arith)

-- The two forms of zero cannot be told apart.
two_zeros : in_cksum (front ++ (0 ∷ 0 ∷ back)) ≡ in_cksum (front ++ (255 ∷ 255 ∷ back))
unfolding in_cksum
two_zeros = refl
