-- ===== src/Server/Select/Valid.antt =====
-- tcpcliserv/tcpservselect01.c: the invariant of the table, the set of descriptors and the bounds.
use unpv13e.Base.{
  ℕ, zero, suc, ◌+◌, ◌≡◌, refl, sym, ap, ◌∙◌, subst, [], ◌∷◌, Bool, true, false, not, ◌&&◌, ◌||◌,
  Option, none, some, ◌==◌, ltb, leb, if◌then◌else◌, arith, length, length-replicate, replicate,
  Bool-cases, inl, inr, ℤ, pos, negsuc, ltb_ℤ,
}
use unpv13e.Server.Select.{Clients, State, Round, initial, upto, with_client}
use unpv13e.Server.Select.Table.{
  mem, Distinct, AllNone, NoneFrom, Saves, length-Saves, mem-Saves, Distinct-Saves, NoneFrom-Saves,
  raised, ready, all_served, cleared, cleared-mem,
}
use unpv13e.Server.Select.Serve.{
  mem-all_served, length-all_served, NoneFrom-all_served, Distinct-all_served,
}

-- The table has its size, no client behind `maxi`, no descriptor twice and not the listening one;
-- `allset` is the listening descriptor and those of the table, and `maxfd` is above none of it.
pub record IsValid (fd_setsize listenfd : ℕ) (s : State) : Type 0 where
  pub size : length s.client ≡ fd_setsize
  pub free : NoneFrom (upto s.maxi) s.client
  pub distinct : Distinct s.client
  pub listening : mem listenfd s.client ≡ false
  pub table : (x : ℕ) → s.allset x ≡ ((x == listenfd) || mem x s.client)
  pub largest : (x : ℕ) → (s.allset x && ltb s.maxfd x) ≡ false

AllNone-replicate : (n : ℕ) → AllNone (replicate n none)
AllNone-replicate zero = tt
AllNone-replicate (suc n) = AllNone-replicate n

Distinct-AllNone : (cs : Clients) → AllNone cs → Distinct cs
Distinct-AllNone [] h = tt
Distinct-AllNone (none ∷ cs) h = Distinct-AllNone cs h
Distinct-AllNone (some fd ∷ cs) h = absurd h

mem_AllNone : (cs : Clients) (x : ℕ) → AllNone cs → mem x cs ≡ false
mem_AllNone [] x h = refl
mem_AllNone (none ∷ cs) x h = mem_AllNone cs x h
mem_AllNone (some fd ∷ cs) x h = absurd h

pub initial-IsValid :
    (fd_setsize listenfd : ℕ) → IsValid fd_setsize listenfd (initial fd_setsize listenfd)
initial-IsValid fd_setsize listenfd =
    let empty = AllNone-replicate fd_setsize in
    record {
      size = length-replicate {A = Option ℕ} fd_setsize none;
      free = empty;
      distinct = Distinct-AllNone (initial fd_setsize listenfd).client empty;
      listening = mem_AllNone (initial fd_setsize listenfd).client listenfd empty;
      table = λ x.
          let no_client = mem_AllNone (initial fd_setsize listenfd).client x empty in
          rw no_client (ground arith);
      largest = λ x. ground arith;
    }

-- A new descriptor is one that was not open.
abbrev pub IsFresh : State → Option ℕ → Type 0
IsFresh s none = Unit
IsFresh s (some connfd) = s.allset connfd ≡ false

-- What the kernel may answer: `Select` leaves descriptors of `allset` alone and counts them.
pub record Answers (listenfd : ℕ) (r : Round) (s : State) : Type 0 where
  pub watched : (x : ℕ) → r.rset x ≡ true → s.allset x ≡ true
  pub count : r.nready ≡ pos ((if r.rset listenfd then 1 else 0) + ready r s.client)
  pub fresh : IsFresh s r.accept

raised_max : (n i : ℕ) → raised n i ≡ (if leb n i then suc i else n)
raised_max zero i = ground arith
raised_max (suc n) zero = ground arith
raised_max (suc n) (suc i) = let rest = raised_max n i in ground (arith, rest)

upto-raised : (m : ℤ) (i : ℕ) → upto (if ltb_ℤ m (pos i) then pos i else m) ≡ raised (upto m) i
upto-raised (pos n) i = ground arith ∙ sym (raised_max (suc n) i)
upto-raised (negsuc n) i = ground arith

module _ (fd_setsize listenfd : ℕ) where
  -- A descriptor that is not open, saved.
  pub with_client-IsValid :
      (connfd i : ℕ) (cs : Clients) (s : State)
      → IsValid fd_setsize listenfd s
      → s.allset connfd ≡ false
      → Saves connfd s.client i cs
      → IsValid fd_setsize listenfd (with_client connfd s (i, cs))
  with_client-IsValid connfd i cs s v new h =
      let absent : mem connfd s.client ≡ false = ground (arith, v.table connfd, new) in
      let other : (listenfd == connfd) ≡ false = apart connfd s v new in
      record {
        size = length-Saves h ∙ v.size;
        free =
            subst (λ n. NoneFrom n cs) (sym (upto-raised s.maxi i))
              (NoneFrom-Saves (upto s.maxi) h v.free);
        distinct = Distinct-Saves h absent v.distinct;
        listening = mem-Saves listenfd h ∙ rw (other, v.listening) refl;
        table = λ x. rw (mem-Saves x h, v.table x) (ground arith);
        largest = λ x. let before = v.largest x in ground (arith, before);
      }
    where
      apart :
          (connfd : ℕ) (s : State)
          → IsValid fd_setsize listenfd s
          → s.allset connfd ≡ false
          → (listenfd == connfd) ≡ false
      apart connfd s v new = let open_ = v.table connfd in ground (arith, open_, new)

  pub served-IsValid :
      (r : Round) (s : State) (cs : Clients) (set : ℕ → Bool)
      → IsValid fd_setsize listenfd s
      → cs ≡ all_served r s.client
      → ((x : ℕ) → set x ≡ (s.allset x && not (cleared r s.client x)))
      → IsValid fd_setsize listenfd
          (record { client = cs; maxi = s.maxi; maxfd = s.maxfd; allset = set })
  served-IsValid r s cs set v e c = record {
    size = ap length e ∙ length-all_served r s.client ∙ v.size;
    free =
        subst (NoneFrom (upto s.maxi)) (sym e)
          (NoneFrom-all_served r (upto s.maxi) s.client v.free);
    distinct = subst Distinct (sym e) (Distinct-all_served r s.client v.distinct);
    listening =
        subst (λ l. mem listenfd l ≡ false) (sym e)
          (mem-all_served r s.client listenfd v.distinct ∙ rw v.listening refl);
    table = λ x.
        subst (λ l. set x ≡ ((x == listenfd) || mem x l)) (sym e)
          (c x ∙ rw (v.table x, mem-all_served r s.client x v.distinct) (kept x));
    largest = λ x. let here = c x in let before = v.largest x in ground (arith, here, before);
  }
    where
      -- The listening descriptor is never cleared.
      kept :
          (x : ℕ)
          → (((x == listenfd) || mem x s.client) && not (cleared r s.client x))
            ≡ ((x == listenfd) || (mem x s.client && not (cleared r s.client x)))
      kept x = elim (Bool-cases (x == listenfd)) [
        | inr other ↦ rw other refl
        | inl same ↦
            let is_listenfd : x ≡ listenfd = ground (arith, same) in
            let stays : cleared r s.client x ≡ false =
              cleared-mem r s.client x
                (subst (λ y. mem y s.client ≡ false) (sym is_listenfd) v.listening) in
            rw (same, stays) refl
      ]
