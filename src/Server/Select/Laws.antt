-- ===== src/Server/Select/Laws.antt =====
-- tcpcliserv/tcpservselect01.c: a round of the server.
use unpv13e.Base.{
  ℕ, ◌≡◌, ◌⊎◌, refl, sym, ap, ◌∙◌, true, false, Option, none, some, arith, Bool-cases, inl, inr, ℤ,
  pos, ◌-ℤ◌, ltb_ℤ,
}
use unpv13e.Server.Select.{
  Clients, State, Round, too_many_clients, err_sys, Next, running, ended, save, upto, Served,
  served, failed, to_next, check_clients, with_client, saved, accepted, round,
}
use unpv13e.Server.Select.Table.{
  AllSome, Saves, SaveGoes, save-SaveGoes, ready, ready-Saves, all_served, effects, ready-Idle,
}
use unpv13e.Server.Select.Serve.{Serves, serve-Serves}
use unpv13e.Server.Select.Valid.{IsValid, IsFresh, Answers, with_client-IsValid, served-IsValid}

module _ (fd_setsize listenfd : ℕ) where
  -- Behind a pass over the clients of the table.
  Passed : Round → Clients → Next → Type 0
  Passed r cs (running s' es) =
      (s'.client ≡ all_served r cs) × (es ≡ effects r cs) × IsValid fd_setsize listenfd s'
  Passed r cs (ended e) = e ≡ err_sys

  to_next-Passed :
      (r : Round) (s : State) (p : Served)
      → IsValid fd_setsize listenfd s
      → Serves r s.client s.allset p
      → Passed r s.client (to_next s.maxi s.maxfd p)
  unfolding Passed
  to_next-Passed r s (served cs set es) v (e, c, d) =
      (e, d, served-IsValid fd_setsize listenfd r s cs set v e c)
  to_next-Passed r s (failed e) v h = h

  check_clients-Passed :
      (r : Round) (s : State) (nready : ℤ)
      → IsValid fd_setsize listenfd s
      → nready ≡ pos (ready r s.client)
      → Passed r s.client (check_clients r nready s)
  unfolding check_clients
  check_clients-Passed r s nready v e = rw e (
      to_next-Passed r s _ v
        (serve-Serves r (upto s.maxi) s.client (ready r s.client) s.allset v.free refl))

  -- The table that is gone through: with a new client in the first free entry, or as it was.
  abbrev pub Admits : Round → State → Clients → Type 0
  Admits r s cs =
      ((r.rset listenfd ≡ false) × (cs ≡ s.client))
      ⊎ ((r.rset listenfd ≡ true)
          × (connfd : ℕ) × (i : ℕ) × (r.accept ≡ some connfd)
          × Saves connfd s.client i cs)

  abbrev pub Goes : Round → State → Next → Type 0
  Goes r s (running s' es) =
      (cs : Clients) × Admits r s cs
      × (s'.client ≡ all_served r cs)
      × (es ≡ effects r cs)
      × IsValid fd_setsize listenfd s'
  Goes r s (ended too_many_clients) = (r.rset listenfd ≡ true) × AllSome s.client
  Goes r s (ended err_sys) = Unit {0}

  Passed-Goes :
      (r : Round) (s : State) (cs : Clients) (p : Next) → Admits r s cs → Passed r cs p → Goes r s p
  unfolding Passed
  Passed-Goes r s cs (running s' es) a (e, d, v) = (cs, a, e, d, v)
  Passed-Goes r s cs (ended too_many_clients) a h = absurd (ground (arith, h))
  Passed-Goes r s cs (ended err_sys) a h = tt

  saved-Goes :
      (r : Round) (s : State) (connfd : ℕ) (o : Option (ℕ × Clients))
      → IsValid fd_setsize listenfd s
      → Answers listenfd r s
      → r.rset listenfd ≡ true
      → r.accept ≡ some connfd
      → s.allset connfd ≡ false
      → SaveGoes connfd s.client o
      → Goes r s (saved r s connfd o)
  unfolding saved
  saved-Goes r s connfd none v a on acc new h = (on, h)
  saved-Goes r s connfd (some (i, cs)) v a on acc new h =
      let v' = with_client-IsValid fd_setsize listenfd connfd i cs s v new h in
      let quiet : r.rset connfd ≡ false = unwatched in
      let same : ready r cs ≡ ready r s.client = ready-Saves r h quiet in
      let left : r.nready -ℤ pos 1 ≡ pos (ready r cs) =
        ap (λ n. n -ℤ pos 1) a.count ∙ rw (on, same) (ground arith) in
      let admits : Admits r s cs = inr (on, connfd, i, acc, h) in
      elim (Bool-cases (ltb_ℤ (pos (ready r cs)) (pos 1))) [
        | inl done ↦
            let idle = ready-Idle r cs (ground (arith, done)) in
            rw (left, done) (cs, admits, sym idle.served, sym idle.none_done, v')
        | inr more ↦
            rw (left, more)
              (Passed-Goes r s cs _ admits
                (check_clients-Passed r (with_client connfd s (i, cs)) (pos (ready r cs)) v' refl))
      ]
    where
      unwatched : r.rset connfd ≡ false
      unwatched = elim (Bool-cases (r.rset connfd)) [
        | inr off ↦ off
        | inl is_on ↦ absurd (ground (arith, a.watched connfd is_on, new))
      ]

  accepted-Goes :
      (r : Round) (s : State) (o : Option ℕ)
      → IsValid fd_setsize listenfd s
      → Answers listenfd r s
      → r.rset listenfd ≡ true
      → r.accept ≡ o
      → IsFresh s o
      → Goes r s (accepted r s o)
  unfolding accepted
  accepted-Goes r s none v a on acc f = tt
  accepted-Goes r s (some connfd) v a on acc f =
      saved-Goes r s connfd (save connfd s.client) v a on acc f (save-SaveGoes connfd s.client)

-- In a valid state, with a kernel that keeps to `Answers`, a round that goes on has gone through the
-- table, with the new connection, if there was one, in the first free entry: each client that was
-- ready got its bytes back, or was closed and its entry freed at the end of its connection, the others
-- are as they were, in order; and the state is valid again. A round ends for too many clients
-- only where there is a new connection and no free entry.
pub round-Serves :
    (fd_setsize listenfd : ℕ) (r : Round) (s : State)
    → IsValid fd_setsize listenfd s
    → Answers listenfd r s
    → Goes fd_setsize listenfd r s (round listenfd r s)
unfolding round
round-Serves fd_setsize listenfd r s v a = elim (Bool-cases (r.rset listenfd)) [
  | inl on ↦ rw on (accepted-Goes fd_setsize listenfd r s r.accept v a on refl a.fresh)
  | inr off ↦ rw off (
      Passed-Goes fd_setsize listenfd r s s.client _ (inl (off, refl)) (
        check_clients-Passed fd_setsize listenfd r s r.nready v
          (a.count ∙ rw off (ap pos (omega arith)))))
]
