-- ===== src/Server/Select/Serve.antt =====
-- tcpcliserv/tcpservselect01.c: the loop over the clients, against a pass over the whole table.
use unpv13e.Base.{
  ℕ, zero, suc, ◌≡◌, refl, sym, ap, ◌∙◌, subst, List, [], ◌∷◌, Bool, true, false, not, ◌&&◌, Option,
  none, some, ◌==◌, arith, length, Bool-cases, inl, inr, pos, ◌-ℤ◌,
}
use unpv13e.Server.Select.{
  Clients, Round, err_sys, Served, served, failed, in_front, after_read, serve, effect_of, fd_clr,
}
use unpv13e.Server.Select.Table.{
  mem, Distinct, AllNone, NoneFrom, ready, is_eof, all_served, effects, cleared, Idle, ready-Idle,
  AllNone-Idle, cleared-mem,
}

abbrev pub Serves : Round → Clients → (ℕ → Bool) → Served → Type 0
Serves r cs s (served cs' s' es) =
    (cs' ≡ all_served r cs) × ((x : ℕ) → s' x ≡ (s x && not (cleared r cs x))) × (es ≡ effects r cs)
Serves r cs s (failed e) = e ≡ err_sys

Idle-Serves : (r : Round) (cs : Clients) (s : ℕ → Bool) → Idle r cs → Serves r cs s (served cs s [])
Idle-Serves r cs s i = (sym i.served, λ x. rw (i.none_cleared x) (ground arith), sym i.none_done)

none-Serves :
    (r : Round) (cs : Clients) (s : ℕ → Bool) (p : Served)
    → Serves r cs s p
    → Serves r (none ∷ cs) s (in_front none [] p)
unfolding in_front
none-Serves r cs s (served cs' s' es) (e, c, d) = (ap (◌∷◌ none) e, c, d)
none-Serves r cs s (failed e) h = h

idle-Serves :
    (r : Round) (fd : ℕ) (cs : Clients) (s : ℕ → Bool) (p : Served)
    → r.rset fd ≡ false
    → Serves r cs s p
    → Serves r (some fd ∷ cs) s (in_front (some fd) [] p)
unfolding in_front
idle-Serves r fd cs s (served cs' s' es) off (e, c, d) =
    (rw off (ap (◌∷◌ (some fd)) e), λ x. let here = c x in rw off (ground (arith, here)), rw off d)
idle-Serves r fd cs s (failed e) off h = h

-- Behind the end of a connection.
eof-Serves :
    (r : Round) (fd : ℕ) (cs : Clients) (s : ℕ → Bool) (p : Served)
    → r.rset fd ≡ true
    → r.read fd ≡ some []
    → Serves r cs (fd_clr fd s) p
    → Serves r (some fd ∷ cs) s (in_front none (effect_of fd [] ∷ []) p)
unfolding in_front
eof-Serves r fd cs s (served cs' s' es) on eof (e, c, d) = (
  rw (on, eof) (ap (◌∷◌ none) e),
  λ x. let here = c x in rw (on, eof) (ground (arith, here)),
  rw (on, eof) (ap (λ l. effect_of fd [] ∷ l) d),
)
eof-Serves r fd cs s (failed e) on eof h = h

-- Behind bytes that were sent back.
echo-Serves :
    (r : Round) (fd b : ℕ) (bs : List ℕ) (cs : Clients) (s : ℕ → Bool) (p : Served)
    → r.rset fd ≡ true
    → r.read fd ≡ some (b ∷ bs)
    → Serves r cs s p
    → Serves r (some fd ∷ cs) s (in_front (some fd) (effect_of fd (b ∷ bs) ∷ []) p)
unfolding in_front
echo-Serves r fd b bs cs s (served cs' s' es) on got (e, c, d) = (
  rw (on, got) (ap (◌∷◌ (some fd)) e),
  λ x. let here = c x in rw (on, got) (ground (arith, here)),
  rw (on, got) (ap (λ l. effect_of fd (b ∷ bs) ∷ l) d),
)
echo-Serves r fd b bs cs s (failed e) on got h = h

after_read-Serves :
    (r : Round) (next : (ℕ → Bool) → Served) (fd : ℕ) (cs : Clients) (fine last : Bool)
    (s : ℕ → Bool) (o : Option (List ℕ))
    → r.rset fd ≡ true
    → r.read fd ≡ o
    → (last ≡ true → Idle r cs)
    → ((s' : ℕ → Bool) → Serves r cs s' (next s'))
    → Serves r (some fd ∷ cs) s (after_read next fd cs fine last s o)
unfolding after_read in_front
after_read-Serves r next fd cs fine last s none on e stop rest = refl
after_read-Serves r next fd cs false last s (some bs) on e stop rest = refl
after_read-Serves r next fd cs true true s (some []) on e stop rest =
    eof-Serves r fd cs s (served cs (fd_clr fd s) []) on e (Idle-Serves r cs _ (stop refl))
after_read-Serves r next fd cs true true s (some (b ∷ bs)) on e stop rest =
    echo-Serves r fd b bs cs s (served cs s []) on e (Idle-Serves r cs s (stop refl))
after_read-Serves r next fd cs true false s (some []) on e stop rest =
    eof-Serves r fd cs s _ on e (rest (fd_clr fd s))
after_read-Serves r next fd cs true false s (some (b ∷ bs)) on e stop rest =
    echo-Serves r fd b bs cs s _ on e (rest s)

-- With `nready` the number of the clients that are ready, and no client behind the first `n` entries.
pub serve-Serves :
    (r : Round) (n : ℕ) (cs : Clients) (k : ℕ) (s : ℕ → Bool)
    → NoneFrom n cs
    → k ≡ ready r cs
    → Serves r cs s (serve r n cs (pos k) s)
unfolding serve
serve-Serves r zero cs k s h e = Idle-Serves r cs s (ready-Idle r cs (AllNone-Idle r cs h))
serve-Serves r (suc n) [] k s h e = Idle-Serves r [] s (ready-Idle r [] refl)
serve-Serves r (suc n) (none ∷ cs) k s h e = none-Serves r cs s _ (serve-Serves r n cs k s h e)
serve-Serves r (suc n) (some fd ∷ cs) k s h e = elim (Bool-cases (r.rset fd)) [
  | inr off ↦
      rw off (idle-Serves r fd cs s _ off (serve-Serves r n cs k s h (ground (arith, e, off))))
  | inl on ↦
      let one : k ≡ suc (ready r cs) = ground (arith, e, on) in
      let less : pos k -ℤ pos 1 ≡ pos (ready r cs) = ground (arith, one) in
      rw (on, less)
        (after_read-Serves r _ fd cs (r.fine fd) _ s (r.read fd) on refl
          (λ last. ready-Idle r cs (ground (arith, last)))
          (λ s'. serve-Serves r n cs (ready r cs) s' h refl))
]

-- What is left in the table behind a pass.
pub mem-all_served :
    (r : Round) (cs : Clients) (x : ℕ)
    → Distinct cs
    → mem x (all_served r cs) ≡ (mem x cs && not (cleared r cs x))
mem-all_served r [] x d = refl
mem-all_served r (none ∷ cs) x d = mem-all_served r cs x d
mem-all_served r (some fd ∷ cs) x (m, d) =
    let rest = mem-all_served r cs x d in
    elim (Bool-cases (r.rset fd && is_eof (r.read fd))) [
      | inr stays ↦ elim (Bool-cases (x == fd)) [
        | inr other ↦ rw (stays, other) (ground (arith, rest))
        | inl same ↦
            let is_fd : x ≡ fd = ground (arith, same) in
            let kept : cleared r cs x ≡ false =
              cleared-mem r cs x (subst (λ y. mem y cs ≡ false) (sym is_fd) m) in
            rw (stays, same, kept) (ground arith)
      ]
      | inl goes ↦ elim (Bool-cases (x == fd)) [
        | inr other ↦ rw (goes, other) (ground (arith, rest))
        | inl same ↦
            let is_fd : x ≡ fd = ground (arith, same) in
            let absent : mem x cs ≡ false = subst (λ y. mem y cs ≡ false) (sym is_fd) m in
            rw (goes, same) (ground (arith, rest, absent))
      ]
    ]

pub length-all_served : (r : Round) (cs : Clients) → length (all_served r cs) ≡ length cs
length-all_served r [] = refl
length-all_served r (none ∷ cs) = ap suc (length-all_served r cs)
length-all_served r (some fd ∷ cs) = ap suc (length-all_served r cs)

NoneAll-all_served : (r : Round) (cs : Clients) → AllNone cs → AllNone (all_served r cs)
NoneAll-all_served r [] h = tt
NoneAll-all_served r (none ∷ cs) h = NoneAll-all_served r cs h
NoneAll-all_served r (some fd ∷ cs) h = absurd h

pub NoneFrom-all_served :
    (r : Round) (n : ℕ) (cs : Clients) → NoneFrom n cs → NoneFrom n (all_served r cs)
NoneFrom-all_served r zero cs h = NoneAll-all_served r cs h
NoneFrom-all_served r (suc n) [] h = tt
NoneFrom-all_served r (suc n) (none ∷ cs) h = NoneFrom-all_served r n cs h
NoneFrom-all_served r (suc n) (some fd ∷ cs) h = NoneFrom-all_served r n cs h

pub Distinct-all_served : (r : Round) (cs : Clients) → Distinct cs → Distinct (all_served r cs)
Distinct-all_served r [] d = tt
Distinct-all_served r (none ∷ cs) d = Distinct-all_served r cs d
Distinct-all_served r (some fd ∷ cs) (m, d) = elim (Bool-cases (r.rset fd && is_eof (r.read fd))) [
  | inl goes ↦ rw goes (Distinct-all_served r cs d)
  | inr stays ↦ rw stays (mem-all_served r cs fd d ∙ rw m refl, Distinct-all_served r cs d)
]
