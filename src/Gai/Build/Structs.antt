-- ===== src/Gai/Build/Structs.antt =====
-- libgai/ga_aistruct.c: the structure that is made.
use unpv13e.Base.{
  ℕ, zero, suc, ◌≡◌, ◌≢◌, inl, inr, refl, List, [], ◌∷◌, ◌++◌, Bool, true, false, ◌||◌, Option,
  none, some, ◌==◌, leb, arith, length, Bool-cases,
}
use unpv13e.Gai.Types.{
  Str, Sockaddr, sin, sin6, sun, Addrinfo, Hints, World, alloc, af_local, af_inet, af_inet6,
  sockaddr_in_size, sockaddr_in6_size, sockaddr_un_size, sun_path_size,
}
use unpv13e.Gai.Build.{
  blank_ai, of_alloc, Made, made, refused, nothing, make_addr, finish, ga_aistruct, is_ip,
}

abbrev pub All {ℓ κ} : {A : Type ℓ} → (A → Type κ) → List A → Type κ
All P [] = Unit
All P (x ∷ xs) = P x × All P xs

pub All-append {ℓ κ} :
    {A : Type ℓ} (P : A → Type κ) (xs ys : List A) → All P xs → All P ys → All P (xs ++ ys)
All-append P [] ys hx hy = hy
All-append P (x ∷ xs) ys hx hy = (hx.0, All-append P xs ys hx.1 hy)

-- The address is there, and is of the family.
abbrev pub OfFamily : ℕ → Option Sockaddr → Type 0
OfFamily family none = ⊥
OfFamily family (some (sin a p)) = family ≡ af_inet
OfFamily family (some (sin6 a p)) = family ≡ af_inet6
OfFamily family (some (sun a)) = family ≡ af_local

abbrev pub IsMade : Addrinfo → Type 0
IsMade ai = OfFamily ai.family ai.addr

-- What `make_addr` made is of the family, and it makes something for each of the three families.
abbrev MadeFor : ℕ → Made × World → Type 0
MadeFor family (made a n, w) = OfFamily family (some a)
MadeFor family (refused e, w) = e ≢ 0
MadeFor family (nothing, w) = (is_ip family || family == af_local) ≡ false

of_alloc-MadeFor :
    (family : ℕ) (a : Sockaddr) (n : ℕ) (ok : Bool) (w : World)
    → OfFamily family (some a)
    → MadeFor family (of_alloc ok a n, w)
of_alloc-MadeFor family a n true w h = h
of_alloc-MadeFor family a n false w h = λ q. absurd (omega arith)

make_addr-MadeFor : (addr : Str) (family : ℕ) (w : World) → MadeFor family (make_addr addr family w)
unfolding make_addr
make_addr-MadeFor addr family w = elim (Bool-cases (family == af_inet)) [
  | inl e ↦ rw e (of_alloc-MadeFor family _ sockaddr_in_size _ _ (ground (arith, e)))
  | inr e ↦ elim (Bool-cases (family == af_inet6)) [
    | inl e6 ↦ rw (e, e6) (of_alloc-MadeFor family _ sockaddr_in6_size _ _ (ground (arith, e6)))
    | inr e6 ↦ elim (Bool-cases (family == af_local)) [
      | inl u ↦ elim (Bool-cases (leb sun_path_size (length addr))) [
        | inl long ↦ rw (e, e6, u, long) (λ q. absurd (omega arith))
        | inr fits ↦
            rw (e, e6, u, fits) (of_alloc-MadeFor family _ sockaddr_un_size _ _ (ground (arith, u)))
      ]
      | inr u ↦ rw (e, e6, u) (ground (arith, e, e6, u))
    ]
  ]
]

-- Where the value is 0 the list has one complete structure more, with the hints' type and protocol.
abbrev pub BuildMade : Hints → ℕ → List Addrinfo → ℕ × List Addrinfo × World → Type 0
BuildMade h family l (zero, l', w) =
    (a : Sockaddr) × (n : ℕ) × (l'
      ≡ l ++ record (blank_ai h family) { addr = some a; addrlen = n } ∷ [])
    × OfFamily family (some a)
BuildMade h family l (suc e, l', w) = Unit {0}

finish-BuildMade :
    (h : Hints) (addr : Str) (family : ℕ) (l : List Addrinfo) (m : Made × World)
    → (is_ip family || family == af_local) ≡ true
    → MadeFor family m
    → BuildMade h family l (finish h addr family l m)
unfolding finish
finish-BuildMade h addr family l (made a n, w) f m = (a, n, refl, m)
finish-BuildMade h addr family l (refused zero, w) f m = absurd (m refl)
finish-BuildMade h addr family l (refused (suc e), w) f m = tt
finish-BuildMade h addr family l (nothing, w) f m = cc

-- For one of the three families, where `ga_aistruct` returns 0 the list has one structure more at its
-- end: with the hints' socket type and protocol, marked for copies exactly where no type was asked
-- for, and with an address of the family.
pub ga_aistruct-BuildMade :
    (h : Hints) (addr : Str) (family : ℕ) (l : List Addrinfo) (w : World)
    → (is_ip family || family == af_local) ≡ true
    → BuildMade h family l (ga_aistruct h addr family l w)
unfolding ga_aistruct
ga_aistruct-BuildMade h addr family l w f = elim (Bool-cases (alloc w).0) [
  | inl e ↦ rw e (finish-BuildMade h addr family l _ f (make_addr-MadeFor addr family (alloc w).1))
  | inr e ↦ rw e tt
]
