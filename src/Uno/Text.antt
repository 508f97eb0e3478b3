-- ===== src/Uno/Text.antt =====
-- tcpcliserv/final_server.c: the C library's functions on text that the server calls, on the bytes
-- in front of the null.
use unpv13e.Base.{
  ℕ, ◌+◌, ◌-◌, ◌*◌, ◌^◌, List, [], ◌∷◌, Bool, true, false, ◌&&◌, ◌||◌, ℤ, pos, sub_ℕ, ◌==◌, leb,
  if◌then◌else◌,
}

-- recvline[strcspn(recvline, "\n")] = 0
unfoldable pub before_newline : List ℕ → List ℕ
before_newline [] = []
before_newline (c ∷ r) =
    let rest = before_newline r in if c == b'\n' || c == 0 then [] else c ∷ rest

unfoldable pub before_null : List ℕ → List ℕ
before_null [] = []
before_null (c ∷ r) = let rest = before_null r in if c == 0 then [] else c ∷ rest

unfoldable pub onto_first : ℕ → List (List ℕ) → List (List ℕ)
onto_first c [] = (c ∷ []) ∷ []
onto_first c (w ∷ ws) = (c ∷ w) ∷ ws

unfoldable pub split : List ℕ → List (List ℕ)
split [] = [] ∷ []
split (c ∷ r) = let rest = split r in if c == b' ' then [] ∷ rest else onto_first c rest

unfoldable pub filled : List (List ℕ) → List (List ℕ)
filled [] = []
filled ([] ∷ ws) = filled ws
filled ((c ∷ w) ∷ ws) = (c ∷ w) ∷ filled ws

-- What strtok(_, " ") gives one after the other.
unfoldable pub tokens : List ℕ → List (List ℕ)
tokens l = filled (split l)

-- strcmp(a, b) == 0
unfoldable pub same_text : List ℕ → List ℕ → Bool
same_text [] [] = true
same_text [] (b ∷ bs) = false
same_text (a ∷ as_) [] = false
same_text (a ∷ as_) (b ∷ bs) = a == b && same_text as_ bs

unfoldable pub digits_from : List ℕ → ℕ → ℕ
digits_from [] n = n
digits_from (c ∷ r) n =
    let more = digits_from r (n * 10 + (c - b'0')) in if leb b'0' c && leb c b'9' then more else n

-- LONG_MAX of a 64-bit long.
abbrev pub long_max : ℕ
long_max = 2 ^ 63 - 1

unfoldable pub at_most : ℕ → ℕ → ℕ
at_most limit n = if leb limit n then limit else n

unfoldable pub negated : List ℕ → ℤ
negated r = sub_ℕ 0 (at_most (long_max + 1) (digits_from r 0))

unfoldable pub plain_number : List ℕ → ℤ
plain_number r = pos (at_most long_max (digits_from r 0))

-- strtol(_, _, 10) of a token, which has no blanks in front.
unfoldable pub strtol : List ℕ → ℤ
strtol [] = pos 0
strtol (c ∷ r) =
    if c == b'-' then negated r else if c == b'+' then plain_number r else plain_number (c ∷ r)
