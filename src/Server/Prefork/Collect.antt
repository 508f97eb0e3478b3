-- ===== src/Server/Prefork/Collect.antt =====
-- server/serv05.c: the search for a free child, and the loop over the pipes.
use unpv13e.Base.{
  ℕ, suc, ◌+◌, ◌<◌, ◌≡◌, ◌≢◌, refl, sym, ◌∙◌, ap, ap₂, subst, List, [], ◌∷◌, true, some, ◌==◌,
  if◌then◌else◌, arith, Bool-cases, inl, inr, pos, ◌+ℤ◌, ◌-ℤ◌,
}
use unpv13e.Server.Prefork.{
  Child, ReadByte, one_byte, terminated, read_error, Round, no_available_children, find_avail, busy,
  free, mark_busy, mark_found, Collected, collected, failed, keep, collect_one, collect,
}

abbrev pub free_count : List Child → ℕ
free_count [] = 0
free_count (c ∷ cs) = (if c.status == 0 then 1 else 0) + free_count cs

module _ (r : Round) where
  abbrev pub ready_count : List Child → ℕ
  ready_count [] = 0
  ready_count (c ∷ cs) = (if r.rset c.pipefd then 1 else 0) + ready_count cs

  -- Each child whose pipe is ready is free again.
  abbrev pub release : List Child → List Child
  release [] = []
  release (c ∷ cs) = (if r.rset c.pipefd then free c else c) ∷ release cs

  -- A child writes to its pipe only when it has served a connection.
  abbrev pub BusyReady : List Child → Type 0
  BusyReady [] = Unit {0}
  BusyReady (c ∷ cs) = (r.rset c.pipefd ≡ true → c.status ≢ 0) × BusyReady cs

-- The first child that is free is busy, and has served one more.
abbrev pub assign_first : List Child → List Child
assign_first [] = []
assign_first (c ∷ cs) = if c.status == 0 then busy c ∷ cs else c ∷ assign_first cs

abbrev pub first_pipe : List Child → ℕ
first_pipe [] = 0
first_pipe (c ∷ cs) = if c.status == 0 then c.pipefd else first_pipe cs

find_avail_lem :
    (cs : List Child)
    → 0 < free_count cs
    → (i : ℕ) × (find_avail cs ≡ some i) × (mark_busy i cs ≡ some (first_pipe cs, assign_first cs))
unfolding find_avail mark_busy
find_avail_lem [] h = absurd (omega arith)
find_avail_lem (c ∷ cs) h = elim (Bool-cases (c.status == 0)) [
  | inl e ↦ (0, rw e, rw e)
  | inr e ↦
      let (i, found, marked) = find_avail_lem cs (ground arith) in
      (suc i, rw (e, found), rw (e, marked))
]

-- The search and the mark come to `assign_first`.
pub mark_found_lem :
    (cs : List Child)
    → 0 < free_count cs
    → mark_found (find_avail cs) cs ≡ some (first_pipe cs, assign_first cs)
unfolding mark_found
mark_found_lem cs h = let (i, found, marked) = find_avail_lem cs h in rw found marked

pub free_count-assign_first :
    (cs : List Child) → 0 < free_count cs → suc (free_count (assign_first cs)) ≡ free_count cs
free_count-assign_first [] h = absurd (omega arith)
free_count-assign_first (c ∷ cs) h = elim (Bool-cases (c.status == 0)) [
  | inl e ↦ rw e (omega arith)
  | inr e ↦ ground (arith, e, free_count-assign_first cs)
]

module _ (r : Round) where
  pub ready_count-assign_first :
      (cs : List Child) → ready_count r (assign_first cs) ≡ ready_count r cs
  ready_count-assign_first [] = refl
  ready_count-assign_first (c ∷ cs) = elim (Bool-cases (c.status == 0)) [
    | inl e ↦ rw e
    | inr e ↦ rw (e, ready_count-assign_first cs)
  ]

  pub BusyReady-assign_first : (cs : List Child) → BusyReady r cs → BusyReady r (assign_first cs)
  BusyReady-assign_first [] b = b
  BusyReady-assign_first (c ∷ cs) (b, bs) = elim (Bool-cases (c.status == 0)) [
    | inl e ↦ rw e (λ _ q. absurd (omega arith), bs)
    | inr e ↦ rw e (b, BusyReady-assign_first cs bs)
  ]

  pub release_none : (cs : List Child) → ready_count r cs ≡ 0 → release r cs ≡ cs
  release_none [] h = refl
  release_none (c ∷ cs) h = elim (Bool-cases (r.rset c.pipefd)) [
    | inl e ↦ absurd (ground (arith, e, h))
    | inr e ↦ rw e (ap (◌∷◌ c) (release_none cs (ground (arith, e, h))))
  ]

  pub free_count-release :
      (cs : List Child)
      → BusyReady r cs
      → free_count (release r cs) ≡ free_count cs + ready_count r cs
  free_count-release [] b = refl
  free_count-release (c ∷ cs) (b, bs) = elim (Bool-cases (r.rset c.pipefd)) [
    | inl e ↦ ground (arith, e, b e, free_count-release cs bs)
    | inr e ↦ ground (arith, e, free_count-release cs bs)
  ]

  -- The loop has released all the children that are ready, or ended for one that has terminated.
  abbrev pub Collects : List Child → ℕ → Collected → Type 0
  Collects cs a (collected cs' navail) =
      (cs' ≡ release r cs) × (navail ≡ pos (a + ready_count r cs))
  Collects cs a (failed e) = e ≢ no_available_children

  keep-Collects :
      (c c' : Child) (cs : List Child) (a k : ℕ) (o : Collected)
      → Collects cs (a + k) o
      → c' ≡ (if r.rset c.pipefd then free c else c)
      → k ≡ (if r.rset c.pipefd then 1 else 0)
      → Collects (c ∷ cs) a (keep c' o)
  keep-Collects c c' cs a k (collected cs' navail) (e, n) q m =
      (ap₂ ◌∷◌ q e, n ∙ ap pos (omega (arith, m)))
  keep-Collects c c' cs a k (failed e) h q m = h

  collect_one-Collects :
      (b : ReadByte) (c : Child) (cs : List Child) (a : ℕ) (o : Collected)
      → r.rset c.pipefd ≡ true
      → Collects cs (a + 1) o
      → Collects (c ∷ cs) a (collect_one b c cs (pos (ready_count r cs)) (pos (a + 1)) o)
  unfolding collect_one
  collect_one-Collects one_byte c cs a o e h = elim (Bool-cases (ready_count r cs == 0)) [
    | inl z ↦
        let none_left : ready_count r cs ≡ 0 = ground arith in
        rw z (
          ap₂ ◌∷◌ (rw e) (sym (release_none cs none_left)),
          ap pos (rw e (omega (arith, none_left))),
        )
    | inr more ↦ rw more (keep-Collects c (free c) cs a 1 o h (rw e) (rw e))
  ]
  collect_one-Collects terminated c cs a o e h = λ q. cc
  collect_one-Collects read_error c cs a o e h = λ q. cc

  pub collect-Collects :
      (cs : List Child) (a : ℕ) → Collects cs a (collect r cs (pos (ready_count r cs)) (pos a))
  unfolding collect
  collect-Collects [] a = (refl, ap pos (omega arith))
  collect-Collects (c ∷ cs) a = elim (Bool-cases (r.rset c.pipefd)) [
    | inl e ↦
        let less : pos (1 + ready_count r cs) -ℤ pos 1 ≡ pos (ready_count r cs) = ground arith in
        let more : pos a +ℤ pos 1 ≡ pos (a + 1) = ground arith in
        rw e (
          subst
            (λ n. Collects (c ∷ cs) a (
              collect_one (r.reads c.pipefd) c cs n (pos a +ℤ pos 1)
                (collect r cs n (pos a +ℤ pos 1))))
            (sym less)
            (subst
              (λ n. Collects (c ∷ cs) a (
                collect_one (r.reads c.pipefd) c cs (pos (ready_count r cs)) n
                  (collect r cs (pos (ready_count r cs)) n)))
              (sym more)
              (collect_one-Collects (r.reads c.pipefd) c cs a _ e (collect-Collects cs (a + 1)))))
    | inr e ↦
        let same : 0 + ready_count r cs ≡ ready_count r cs = omega arith in
        let here : a ≡ a + 0 = omega arith in
        rw e (
          subst (λ n. Collects (c ∷ cs) a (keep c (collect r cs (pos n) (pos a)))) (sym same)
            (keep-Collects c c cs a 0 _
              (subst (λ n. Collects cs n (collect r cs (pos (ready_count r cs)) (pos a))) here
                (collect-Collects cs a))
              (rw e) (rw e)))
  ]
