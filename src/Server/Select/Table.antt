-- ===== src/Server/Select/Table.antt =====
-- tcpcliserv/tcpservselect01.c: the table of clients, what a save and a pass over it are to do.
use unpv13e.Base.{
  ℕ, zero, suc, ◌+◌, ◌≡◌, refl, ap, subst, List, [], ◌∷◌, ◌++◌, Bool, true, false, ◌&&◌, ◌||◌,
  Option, none, some, ◌==◌, if◌then◌else◌, arith, length, Option-cases, inl, inr,
}
use unpv13e.Server.Select.{Clients, Round, Effect, save, effect_of}

abbrev pub mem : ℕ → Clients → Bool
mem x [] = false
mem x (none ∷ cs) = mem x cs
mem x (some fd ∷ cs) = (x == fd) || mem x cs

abbrev pub Distinct : Clients → Type 0
Distinct [] = Unit
Distinct (none ∷ cs) = Distinct cs
Distinct (some fd ∷ cs) = (mem fd cs ≡ false) × Distinct cs

abbrev pub AllNone : Clients → Type 0
AllNone [] = Unit
AllNone (none ∷ cs) = AllNone cs
AllNone (some fd ∷ cs) = ⊥

abbrev pub AllSome : Clients → Type 0
AllSome [] = Unit
AllSome (none ∷ cs) = ⊥
AllSome (some fd ∷ cs) = AllSome cs

-- The entries behind the first `n` are free.
abbrev pub NoneFrom : ℕ → Clients → Type 0
NoneFrom zero cs = AllNone cs
NoneFrom (suc n) [] = Unit
NoneFrom (suc n) (c ∷ cs) = NoneFrom n cs

-- The descriptor is saved in the first free entry, at an index.
pub data Saves (connfd : ℕ) : Clients → ℕ → Clients → Type 0 where
  here : {cs : Clients} → Saves connfd (none ∷ cs) 0 (some connfd ∷ cs)
  there :
      {fd i : ℕ} {cs cs' : Clients}
      → Saves connfd cs i cs'
      → Saves connfd (some fd ∷ cs) (suc i) (some fd ∷ cs')

abbrev pub SaveGoes : ℕ → Clients → Option (ℕ × Clients) → Type 0
SaveGoes connfd cs none = AllSome cs
SaveGoes connfd cs (some (i, cs')) = Saves connfd cs i cs'

pub save-SaveGoes : (connfd : ℕ) (cs : Clients) → SaveGoes connfd cs (save connfd cs)
unfolding save
save-SaveGoes connfd [] = tt
save-SaveGoes connfd (none ∷ cs) = here
save-SaveGoes connfd (some fd ∷ cs) = elim (Option-cases (save connfd cs)) [
  | inl e ↦ rw e (subst (SaveGoes connfd cs) e (save-SaveGoes connfd cs))
  | inr ((i, cs'), e) ↦ rw e (there (subst (SaveGoes connfd cs) e (save-SaveGoes connfd cs)))
]

pub length-Saves :
    {connfd i : ℕ} {cs cs' : Clients} → Saves connfd cs i cs' → length cs' ≡ length cs
length-Saves here = refl
length-Saves (there s) = ap suc (length-Saves s)

pub mem-Saves :
    {connfd i : ℕ} {cs cs' : Clients} (x : ℕ)
    → Saves connfd cs i cs'
    → mem x cs' ≡ ((x == connfd) || mem x cs)
mem-Saves x here = refl
mem-Saves x (there s) = let rest = mem-Saves x s in ground (arith, rest)

pub Distinct-Saves :
    {connfd i : ℕ} {cs cs' : Clients}
    → Saves connfd cs i cs'
    → mem connfd cs ≡ false
    → Distinct cs
    → Distinct cs'
Distinct-Saves here m d = (m, d)
Distinct-Saves (there {fd = fd} s) m (n, d) =
    (ground (arith, mem-Saves fd s, m, n), Distinct-Saves s (ground (arith, m)) d)

NoneFrom_suc : (n : ℕ) (cs : Clients) → NoneFrom n cs → NoneFrom (suc n) cs
NoneFrom_suc n [] h = tt
NoneFrom_suc zero (none ∷ cs) h = h
NoneFrom_suc zero (some fd ∷ cs) h = absurd h
NoneFrom_suc (suc n) (c ∷ cs) h = NoneFrom_suc n cs h

-- The bound of the used entries behind a save at an index.
abbrev pub raised : ℕ → ℕ → ℕ
raised zero i = suc i
raised (suc n) zero = suc n
raised (suc n) (suc i) = suc (raised n i)

pub NoneFrom-Saves :
    {connfd i : ℕ} {cs cs' : Clients} (n : ℕ)
    → Saves connfd cs i cs'
    → NoneFrom n cs
    → NoneFrom (raised n i) cs'
NoneFrom-Saves zero here h = h
NoneFrom-Saves (suc n) here h = h
NoneFrom-Saves zero (there s) h = absurd h
NoneFrom-Saves (suc n) (there s) h = NoneFrom-Saves n s h

-- The number of clients that are ready.
abbrev pub ready : Round → Clients → ℕ
ready r [] = 0
ready r (none ∷ cs) = ready r cs
ready r (some fd ∷ cs) = (if r.rset fd then 1 else 0) + ready r cs

abbrev pub is_eof : Option (List ℕ) → Bool
is_eof none = false
is_eof (some []) = true
is_eof (some (b ∷ bs)) = false

-- What a pass over the whole table is to do: an entry is free behind the end of its connection, and
-- what came on a connection is sent back on it.
abbrev pub all_served : Round → Clients → Clients
all_served r [] = []
all_served r (none ∷ cs) = none ∷ all_served r cs
all_served r (some fd ∷ cs) =
    (if r.rset fd && is_eof (r.read fd) then none else some fd) ∷ all_served r cs

abbrev pub effects_of : ℕ → Option (List ℕ) → List Effect
effects_of fd none = []
effects_of fd (some bs) = effect_of fd bs ∷ []

abbrev pub effects : Round → Clients → List Effect
effects r [] = []
effects r (none ∷ cs) = effects r cs
effects r (some fd ∷ cs) =
    let rest = effects r cs in if r.rset fd then effects_of fd (r.read fd) ++ rest else rest

abbrev pub cleared : Round → Clients → ℕ → Bool
cleared r [] x = false
cleared r (none ∷ cs) x = cleared r cs x
cleared r (some fd ∷ cs) x = ((x == fd) && (r.rset fd && is_eof (r.read fd))) || cleared r cs x

pub ready-Saves :
    {connfd i : ℕ} {cs cs' : Clients} (r : Round)
    → Saves connfd cs i cs'
    → r.rset connfd ≡ false
    → ready r cs' ≡ ready r cs
ready-Saves r here h = rw h (omega arith)
ready-Saves r (there {fd = fd} s) h = ap (λ k. (if r.rset fd then 1 else 0) + k) (ready-Saves r s h)

-- Nothing is to be done where no client is ready.
pub record Idle (r : Round) (cs : Clients) : Type 0 where
  pub served : all_served r cs ≡ cs
  pub none_done : effects r cs ≡ []
  pub none_cleared : (x : ℕ) → cleared r cs x ≡ false

pub ready-Idle : (r : Round) (cs : Clients) → ready r cs ≡ 0 → Idle r cs
ready-Idle r [] h = record { served = refl; none_done = refl; none_cleared = λ x. refl }
ready-Idle r (none ∷ cs) h =
    let i = ready-Idle r cs h in
    record {
      served = ap (◌∷◌ none) i.served;
      none_done = i.none_done;
      none_cleared = i.none_cleared;
    }
ready-Idle r (some fd ∷ cs) h =
    let no : r.rset fd ≡ false = ground (arith, h) in
    let i = ready-Idle r cs (ground (arith, h)) in
    record {
      served = rw no (ap (◌∷◌ (some fd)) i.served);
      none_done = rw no i.none_done;
      none_cleared = λ x. rw (no, i.none_cleared x) (ground arith);
    }

pub AllNone-Idle : (r : Round) (cs : Clients) → AllNone cs → ready r cs ≡ 0
AllNone-Idle r [] h = refl
AllNone-Idle r (none ∷ cs) h = AllNone-Idle r cs h
AllNone-Idle r (some fd ∷ cs) h = absurd h

pub cleared-mem : (r : Round) (cs : Clients) (x : ℕ) → mem x cs ≡ false → cleared r cs x ≡ false
cleared-mem r [] x h = refl
cleared-mem r (none ∷ cs) x h = cleared-mem r cs x h
cleared-mem r (some fd ∷ cs) x h =
    let rest = cleared-mem r cs x (ground (arith, h)) in ground (arith, h, rest)
