-- ===== src/Gai/Build/Exact.antt =====
-- libgai/ga_aistruct.c: every member of the structure that is made, and the errors.
use unpv13e.Base.{
  ℕ, zero, suc, ◌≤◌, ◌<◌, ◌≡◌, ◌⊎◌, inl, inr, refl, List, [], ◌∷◌, ◌++◌, Bool, true, false, ◌||◌,
  ◌&&◌, Option, none, some, ◌==◌, leb, ◌∙◌, arith, length, take, Bool-cases, if◌then◌else◌,
}
use unpv13e.Gai.Types.{
  Str, Sockaddr, sin, sin6, sun, Addrinfo, Hints, World, alloc, af_local, af_inet, af_inet6,
  eai_memory, eai_service, has_passive,
}
use unpv13e.Gai.Build.{of_alloc, made, make_addr, finish, ga_aistruct, is_ip}

-- The socket address and its size: the first 4 or 16 bytes at `addr` with port 0, or the whole name,
-- which leaves room for its null.
abbrev pub AddressOf : Str → ℕ → Sockaddr → ℕ → Type 0
AddressOf addr family (sin a p) n = (family ≡ 2) × (a ≡ take 4 addr) × (p ≡ 0) × (n ≡ 16)
AddressOf addr family (sin6 a p) n = (family ≡ 10) × (a ≡ take 16 addr) × (p ≡ 0) × (n ≡ 28)
AddressOf addr family (sun a) n = (family ≡ 1) × (a ≡ addr) × (length addr < 108) × (n ≡ 110)

abbrev pub HasAddress : Str → ℕ → Option Sockaddr → ℕ → Type 0
HasAddress addr family none n = ⊥
HasAddress addr family (some a) n = AddressOf addr family a n

-- The structure that the hints and the address ask for.
pub record IsBuilt (h : Hints) (addr : Str) (family : ℕ) (ai : Addrinfo) : Type 0 where
  pub cloned : h.socktype ≡ 0 → ai.flags ≡ 4
  pub plain : (0 < h.socktype) → ai.flags ≡ 0
  pub family_lem : ai.family ≡ family
  pub socktype_lem : ai.socktype ≡ h.socktype
  pub protocol_lem : ai.protocol ≡ h.protocol
  pub nameless : ai.canonname ≡ none
  pub address : HasAddress addr family ai.addr ai.addrlen

-- One of the two allocations fails.
abbrev pub NoMemory : World → Type 0
NoMemory w = ((alloc w).0 ≡ false) ⊎ ((alloc (alloc w).1).0 ≡ false)

-- What `ga_aistruct` comes to, with the names that were unlinked.
abbrev pub Builds : Hints → Str → ℕ → List Addrinfo → World → ℕ × List Addrinfo × World → Type 0
Builds h addr family l w (zero, l', w') =
    (ai : Addrinfo) × (l' ≡ l ++ ai ∷ [])
    × IsBuilt h addr family ai
    × (w'.unlinked ≡ (if family == 1 && has_passive h.flags then addr ∷ w.unlinked else w.unlinked))
Builds h addr family l w (suc e, l', w') =
    (((suc e ≡ eai_memory) × NoMemory w)
      ⊎ ((suc e ≡ eai_service) × (family ≡ 1) × (108 ≤ length addr)))
    × (w'.unlinked ≡ w.unlinked)

finish-made :
    (h : Hints) (addr : Str) (family : ℕ) (l : List Addrinfo) (w w' : World) (a : Sockaddr) (n : ℕ)
    → w'.unlinked ≡ w.unlinked
    → AddressOf addr family a n
    → Builds h addr family l w (finish h addr family l (made a n, w'))
unfolding finish
finish-made h addr family l w w' a n same m = (
  _,
  refl,
  record {
    cloned = λ e. ground arith;
    plain = λ e. ground arith;
    family_lem = refl;
    socktype_lem = refl;
    protocol_lem = refl;
    nameless = refl;
    address = m;
  },
  ground (arith, same),
)

List-cases : (bs : List Bool) → (bs ≡ []) ⊎ ((b : Bool) × (r : List Bool) × (bs ≡ b ∷ r))
List-cases [] = inl refl
List-cases (b ∷ bs) = inr (b, bs, refl)

alloc-unlinked : (w : World) → (alloc w).1.unlinked ≡ w.unlinked
alloc-unlinked w = elim (List-cases w.answers) [ inl e ↦ rw e refl | inr (b, bs, e) ↦ rw e refl ]

alloc_refused :
    (h : Hints) (addr : Str) (family : ℕ) (l : List Addrinfo) (w w' : World) (ok : Bool)
    (a : Sockaddr) (n : ℕ)
    → (alloc (alloc w).1).0 ≡ ok
    → w'.unlinked ≡ w.unlinked
    → AddressOf addr family a n
    → Builds h addr family l w (finish h addr family l (of_alloc ok a n, w'))
alloc_refused h addr family l w w' true a n e same m = finish-made h addr family l w w' a n same m
alloc_refused h addr family l w w' false a n e same m = unfold finish in (inl (refl, inr e), same)

make_addr-Builds :
    (h : Hints) (addr : Str) (family : ℕ) (l : List Addrinfo) (w : World)
    → (is_ip family || family == af_local) ≡ true
    → Builds h addr family l w (finish h addr family l (make_addr addr family (alloc w).1))
unfolding make_addr
make_addr-Builds h addr family l w f =
    let one = alloc-unlinked w in
    let two = alloc-unlinked (alloc w).1 ∙ one in
    elim (Bool-cases (family == af_inet)) [
      | inl e ↦
          rw e
            (alloc_refused h addr family l w _ _ _ _ refl two (ground (arith, e), refl, refl, refl))
      | inr e ↦ elim (Bool-cases (family == af_inet6)) [
        | inl e6 ↦
            rw (e, e6)
              (alloc_refused h addr family l w _ _ _ _ refl two
                (ground (arith, e6), refl, refl, refl))
        | inr e6 ↦ elim (Bool-cases (leb 108 (length addr))) [
          | inl long ↦
              let u : (family == af_local) ≡ true = ground (arith, e, e6, f) in
              rw (e, e6, u, long)
                (unfold finish in (inr (refl, ground (arith, u), ground (arith, long)), one))
          | inr fits ↦
              let u : (family == af_local) ≡ true = ground (arith, e, e6, f) in
              rw (e, e6, u, fits)
                (alloc_refused h addr family l w _ _ _ _ refl two
                  (ground (arith, u), refl, ground (arith, fits), refl))
        ]
      ]
    ]

-- For one of the three families: where `ga_aistruct` returns 0 the list has one structure more at its
-- end, with the family, the hints' socket type and protocol, no canonical name, the flag AI_CLONE
-- exactly where the hints have no socket type and no other flag, the address of the family with
-- the first 4 or 16 bytes given and port 0, or the name, and its size; a name of the Unix domain is
-- unlinked exactly for a passive socket. Else the value is EAI_MEMORY, and an allocation failed, or
-- EAI_SERVICE, for a name of 108 bytes or more, and nothing is unlinked.
pub ga_aistruct-Builds :
    (h : Hints) (addr : Str) (family : ℕ) (l : List Addrinfo) (w : World)
    → (is_ip family || family == af_local) ≡ true
    → Builds h addr family l w (ga_aistruct h addr family l w)
unfolding ga_aistruct
ga_aistruct-Builds h addr family l w f = elim (Bool-cases (alloc w).0) [
  | inl e ↦ rw e (make_addr-Builds h addr family l w f)
  | inr e ↦ rw e (inl (refl, inl e), alloc-unlinked w)
]
