-- ===== src/Server/Prefork/Laws.antt =====
-- A round of the parent in server/serv05.c against what it is to do to the table and to `navail`.
use unpv13e.Base.{
  ℕ, ◌+◌, ◌<◌, ◌≡◌, ◌≢◌, refl, sym, ◌∙◌, ap, subst₂, List, [], ◌∷◌, true, Option, none, some, ◌==◌,
  if◌then◌else◌, arith, Bool-cases, inl, inr, ℤ, pos, ◌-ℤ◌,
}
use unpv13e.Server.Prefork.{
  Child, Server, Round, no_available_children, Next, running, ended, listens, hand_on, is_zero,
  Collected, collected, failed, collect, to_next, dispatch, round,
}
use unpv13e.Server.Prefork.Collect.{
  free_count, ready_count, release, BusyReady, assign_first, first_pipe, mark_found_lem,
  free_count-assign_first, ready_count-assign_first, BusyReady-assign_first, release_none,
  free_count-release, Collects, collect-Collects,
}

-- `navail` is the number of free children.
pub record IsValid (s : Server) : Type 0 where
  pub navail : s.navail ≡ pos (free_count s.children)

-- What the kernel may answer: `Select` leaves only bits that were set and returns their number, and
-- a pipe is ready only where a child was busy.
pub record Answers (listenfd : ℕ) (r : Round) (s : Server) : Type 0 where
  pub listening : r.rset listenfd ≡ true → listens s ≡ true
  pub nsel : r.nsel ≡ pos ((if r.rset listenfd then 1 else 0) + ready_count r s.children)
  pub busy_ready : BusyReady r s.children

-- The children behind a round, and what was handed on in it.
abbrev pub children_after : ℕ → Round → Server → List Child
children_after listenfd r s =
    release r (if r.rset listenfd then assign_first s.children else s.children)

abbrev pub handed : ℕ → Round → Server → List (ℕ × ℕ)
handed listenfd r s =
    if r.rset listenfd
    then elim r.accept [ none ↦ [] | some connfd ↦ (first_pipe s.children, connfd) ∷ [] ]
    else []

abbrev pub Goes : ℕ → Round → Server → Next → Type 0
Goes listenfd r s (running s' passed) =
    IsValid s' × (s'.children ≡ children_after listenfd r s) × (passed ≡ handed listenfd r s)
Goes listenfd r s (ended e) = e ≢ no_available_children

-- A collection over the children `cs`, of which `a` are free, leaves a valid server.
abbrev Comes : Round → List Child → List (ℕ × ℕ) → Next → Type 0
Comes r cs passed (running s' passed') =
    IsValid s' × (s'.children ≡ release r cs) × (passed' ≡ passed)
Comes r cs passed (ended e) = e ≢ no_available_children

to_next-Comes :
    (r : Round) (cs : List Child) (passed : List (ℕ × ℕ)) (o : Collected)
    → BusyReady r cs
    → Collects r cs (free_count cs) o
    → Comes r cs passed (to_next passed o)
to_next-Comes r cs passed (collected cs' navail) b (e, n) = (
  record { navail = n ∙ ap pos (sym (free_count-release r cs b) ∙ ap free_count (sym e)) },
  e,
  refl,
)
to_next-Comes r cs passed (failed e) b h = h

hand_on-Comes :
    (r : Round) (s : Server) (connfd : ℕ)
    → IsValid s
    → 0 < free_count s.children
    → BusyReady r s.children
    → r.nsel ≡ pos (1 + ready_count r s.children)
    → Comes r
        (assign_first s.children)
        ((first_pipe s.children, connfd) ∷ [])
        (hand_on r s connfd (some (first_pipe s.children, assign_first s.children)))
unfolding hand_on
hand_on-Comes r s connfd v some_free b n =
    let cs = assign_first s.children in
    let bits : r.nsel -ℤ pos 1 ≡ pos (ready_count r cs) =
      ground (arith, n, ready_count-assign_first r s.children) in
    let left : s.navail -ℤ pos 1 ≡ pos (free_count cs) =
      ground (arith, v.navail, free_count-assign_first s.children some_free) in
    let busy_ready : BusyReady r cs = BusyReady-assign_first r s.children b in
    let Goal = λ (n m : ℤ). Comes r cs ((first_pipe s.children, connfd) ∷ []) (
      if is_zero n
      then running (record { children = cs; navail = m }) ((first_pipe s.children, connfd) ∷ [])
      else to_next ((first_pipe s.children, connfd) ∷ []) (collect r cs n m)) in
    subst₂ Goal (sym bits) (sym left) (elim (Bool-cases (ready_count r cs == 0)) [
      | inl z ↦ rw z (record { navail = refl }, sym (release_none r cs (ground (arith, z))), refl)
      | inr more ↦
          rw more (to_next-Comes r cs _ _ busy_ready (collect-Collects r cs (free_count cs)))
    ])

Comes-Goes :
    (listenfd : ℕ) (r : Round) (s : Server) (cs : List Child) (passed : List (ℕ × ℕ)) (o : Next)
    → release r cs ≡ children_after listenfd r s
    → passed ≡ handed listenfd r s
    → Comes r cs passed o
    → Goes listenfd r s o
Comes-Goes listenfd r s cs passed (running s' passed') e p (v, c, q) = (v, c ∙ e, q ∙ p)
Comes-Goes listenfd r s cs passed (ended x) e p h = h

accepting-Goes :
    (listenfd : ℕ) (r : Round) (s : Server) (a : Option ℕ)
    → r.accept ≡ a
    → r.rset listenfd ≡ true
    → IsValid s
    → Answers listenfd r s
    → Goes listenfd r s (dispatch r s a)
unfolding dispatch listens
accepting-Goes listenfd r s none e l v a = λ q. cc
accepting-Goes listenfd r s (some connfd) e l v a =
    let some_free : 0 < free_count s.children = ground (arith, a.listening l, v.navail) in
    rw (mark_found_lem s.children some_free) (
      Comes-Goes listenfd r s (assign_first s.children) ((first_pipe s.children, connfd) ∷ []) _
        (rw l) (rw (l, e)) (hand_on-Comes r s connfd v some_free a.busy_ready (a.nsel ∙ rw l)))

-- In a round of the parent's loop that begins with `navail` right, where `Select` and the children
-- keep to `Answers`: the parent never finds itself with a connection and no child; if it
-- goes on, `navail` is right again, each child whose pipe was ready is free, the connection that was
-- accepted, if there was one, went to the first child that was free before, which is busy and has
-- one more to its count, and the other children are as they were.
pub round-Goes :
    (listenfd : ℕ) (r : Round) (s : Server)
    → IsValid s
    → Answers listenfd r s
    → Goes listenfd r s (round listenfd r s)
unfolding round
round-Goes listenfd r s v a = elim (Bool-cases (r.rset listenfd)) [
  | inl l ↦ rw l (accepting-Goes listenfd r s r.accept refl l v a)
  | inr l ↦
      let bits : r.nsel ≡ pos (ready_count r s.children) = a.nsel ∙ rw l (ap pos (omega arith)) in
      rw l (
        Comes-Goes listenfd r s s.children [] _ (rw l) (rw l) (
          to_next-Comes r s.children [] _ a.busy_ready (
            subst₂ (λ n m. Collects r s.children (free_count s.children) (collect r s.children n m))
              (sym bits) (sym v.navail) (collect-Collects r s.children (free_count s.children)))))
]
