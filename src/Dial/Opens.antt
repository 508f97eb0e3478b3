-- ===== src/Dial/Opens.antt =====
-- lib/tcp_connect.c and its kin: what is open behind an attempt and behind the loop.
use unpv13e.Base.{
  ℕ, ◌≡◌, ◌≢◌, inl, inr, ◌∙◌, subst, List, [], ◌∷◌, Bool, true, false, Option, none, some,
}
use unpv13e.Gai.Types.{Addrinfo, Hints, af_local}
use unpv13e.Gai.Build.Structs.{All}
use unpv13e.Gai.Lookup.{Result, success, failure, err_quit}
use unpv13e.Gai.Lookup.Hosts.{Usable, Answers}
use unpv13e.Dial.Sockets.{Kernel, IsKernel, OpensOne, ClosesOne}
use unpv13e.Dial.{
  Attempt, break, next, fatal, Tried, found, exhausted, quit, after_try, try_each, Dialled,
  returned, lookup_error, lookup_ended, err_sys, to_dialled, with_list, closed, connected,
  connect_on, bind_on, reused, listen_on, socket_on, socket_for, listened, listen_found,
}

module _ {W : Type 0} {k : Kernel W} (h : IsKernel k) where
  abbrev Sockets : Type 0
  Sockets = List (ℕ × ℕ)

  -- An attempt at a socket of the type, where the sockets `s` are open.
  abbrev pub Tries : ℕ → Sockets → Attempt W → Type 0
  Tries socktype s (break fd w) = h.opened w ≡ (fd, socktype) ∷ s
  Tries socktype s (next w) = h.opened w ≡ s
  Tries socktype s (fatal w) = Unit {0}

  closed-Tries :
      (socktype fd : ℕ) (s : Sockets) (w : W) (r : Bool × W)
      → h.opened w ≡ (fd, socktype) ∷ s
      → ClosesOne h.opened fd w r
      → Tries socktype s (closed k r)
  unfolding closed
  closed-Tries socktype fd s w (true, w') e c = c socktype s e
  closed-Tries socktype fd s w (false, w') e c = tt

  connected-Tries :
      (socktype fd : ℕ) (s : Sockets) (r : Bool × W)
      → h.opened r.1 ≡ (fd, socktype) ∷ s
      → Tries socktype s (connected k fd r)
  unfolding connected
  connected-Tries socktype fd s (true, w) e = e
  connected-Tries socktype fd s (false, w) e =
      closed-Tries socktype fd s w (k.close fd w) e (h.close_one fd w)

  pub connect_on-Tries :
      (ai : Addrinfo) (w : W) (r : Option ℕ × W)
      → OpensOne h.opened ai.socktype w r
      → Tries ai.socktype (h.opened w) (connect_on k ai r)
  unfolding connect_on
  connect_on-Tries ai w (none, w') o = o
  connect_on-Tries ai w (some fd, w') o =
      connected-Tries ai.socktype fd (h.opened w) _ (h.connect_keeps fd ai.addr ai.addrlen w' ∙ o)

  pub bind_on-Tries :
      (ai : Addrinfo) (w : W) (r : Option ℕ × W)
      → OpensOne h.opened ai.socktype w r
      → Tries ai.socktype (h.opened w) (bind_on k ai r)
  unfolding bind_on
  bind_on-Tries ai w (none, w') o = o
  bind_on-Tries ai w (some fd, w') o =
      connected-Tries ai.socktype fd (h.opened w) _ (h.bind_keeps fd ai.addr ai.addrlen w' ∙ o)

  reused-Tries :
      (ai : Addrinfo) (fd : ℕ) (s : Sockets) (r : Bool × W)
      → h.opened r.1 ≡ (fd, ai.socktype) ∷ s
      → Tries ai.socktype s (reused k ai fd r)
  unfolding reused
  reused-Tries ai fd s (true, w) o =
      connected-Tries ai.socktype fd s _ (h.bind_keeps fd ai.addr ai.addrlen w ∙ o)
  reused-Tries ai fd s (false, w) o = tt

  pub listen_on-Tries :
      (ai : Addrinfo) (w : W) (r : Option ℕ × W)
      → OpensOne h.opened ai.socktype w r
      → Tries ai.socktype (h.opened w) (listen_on k ai r)
  unfolding listen_on
  listen_on-Tries ai w (none, w') o = o
  listen_on-Tries ai w (some fd, w') o =
      reused-Tries ai fd (h.opened w) _ (h.reuseaddr_keeps fd w' ∙ o)

  pub socket_on-Tries :
      (socktype : ℕ) (w : W) (r : Option ℕ × W)
      → OpensOne h.opened socktype w r
      → Tries socktype (h.opened w) (socket_on k r)
  unfolding socket_on
  socket_on-Tries socktype w (none, w') o = o
  socket_on-Tries socktype w (some fd, w') o = o

  pub opens_one : (ai : Addrinfo) (w : W) → OpensOne h.opened ai.socktype w (socket_for k ai w)
  opens_one ai w = h.socket_one ai.family ai.socktype ai.protocol w

  -- A loop that finds one leaves it open on top, of the type; one that finds none leaves all as it is.
  abbrev pub Finds : ℕ → Sockets → Tried W → Type 0
  Finds socktype s (found fd ai w) = h.opened w ≡ (fd, socktype) ∷ s
  Finds socktype s (exhausted w) = h.opened w ≡ s
  Finds socktype s (quit w) = Unit {0}

  after_try-Finds :
      (socktype : ℕ) (s : Sockets) (ai : Addrinfo) (rest : W → Tried W) (a : Attempt W)
      → Tries socktype s a
      → ((w : W) → h.opened w ≡ s → Finds socktype s (rest w))
      → Finds socktype s (after_try ai rest a)
  unfolding after_try
  after_try-Finds socktype s ai rest (break fd w) t r = t
  after_try-Finds socktype s ai rest (next w) t r = r w t
  after_try-Finds socktype s ai rest (fatal w) t r = tt

  -- Every structure is of the type.
  abbrev pub OfType : ℕ → List Addrinfo → Type 0
  OfType socktype l = All (λ ai. ai.socktype ≡ socktype) l

  pub try_each-Finds :
      (attempt : Addrinfo → W → Attempt W) (socktype : ℕ) (l : List Addrinfo) (s : Sockets) (w : W)
      → ((ai : Addrinfo) (w : W) → Tries ai.socktype (h.opened w) (attempt ai w))
      → OfType socktype l
      → h.opened w ≡ s
      → Finds socktype s (try_each attempt l w)
  unfolding try_each
  try_each-Finds attempt socktype [] s w a t e = e
  try_each-Finds attempt socktype (ai ∷ l) s w a (t, ts) e =
      after_try-Finds socktype s ai (try_each attempt l) _
        (subst (λ n. Tries n s (attempt ai w)) t
          (subst (λ z. Tries ai.socktype z (attempt ai w)) e (a ai w)))
        (λ w' e'. try_each-Finds attempt socktype l s w' a ts e')

  -- A socket of the type is returned, and nothing else is open that was not; or the lookup failed; the
  -- lookup does not end the process by itself.
  abbrev pub Opens : ℕ → Sockets → Dialled W → Type 0
  Opens socktype s (returned fd ai w) = h.opened w ≡ (fd, socktype) ∷ s
  Opens socktype s (lookup_error e) = e ≢ 0
  Opens socktype s lookup_ended = ⊥
  Opens socktype s (err_sys w) = Unit {0}

  pub to_dialled-Opens :
      (socktype : ℕ) (s : Sockets) (t : Tried W)
      → Finds socktype s t
      → Opens socktype s (to_dialled t)
  unfolding to_dialled
  to_dialled-Opens socktype s (found fd ai w) f = f
  to_dialled-Opens socktype s (exhausted w) f = tt
  to_dialled-Opens socktype s (quit w) f = tt

  listened-Opens :
      (socktype fd : ℕ) (s : Sockets) (ai : Addrinfo) (r : Bool × W)
      → h.opened r.1 ≡ (fd, socktype) ∷ s
      → Opens socktype s (listened k fd ai r)
  unfolding listened
  listened-Opens socktype fd s ai (true, w) e = e
  listened-Opens socktype fd s ai (false, w) e = tt

  pub listen_found-Opens :
      (socktype : ℕ) (s : Sockets) (t : Tried W)
      → Finds socktype s t
      → Opens socktype s (listen_found k t)
  unfolding listen_found
  listen_found-Opens socktype s (found fd ai w) f =
      listened-Opens socktype fd s ai (k.listen fd w) (h.listen_keeps fd w ∙ f)
  listen_found-Opens socktype s (exhausted w) f = tt
  listen_found-Opens socktype s (quit w) f = tt

  Usable-OfType :
      (hints : Hints) (l : List Addrinfo)
      → hints.socktype ≢ 0
      → All (Usable hints) l
      → OfType hints.socktype l
  Usable-OfType hints [] ne u = tt
  Usable-OfType hints (ai ∷ l) ne (u, us) =
      (elim u.socktype [ inl z ↦ absurd (ne z) | inr e ↦ e ], Usable-OfType hints l ne us)

  pub with_list-Opens :
      (hints : Hints) (s : Sockets) (try_list : List Addrinfo → Dialled W) (r : Result)
      → hints.socktype ≢ 0
      → hints.family ≢ af_local
      → ((l : List Addrinfo) → OfType hints.socktype l → Opens hints.socktype s (try_list l))
      → Answers hints r
      → Opens hints.socktype s (with_list try_list r)
  unfolding with_list
  with_list-Opens hints s try_list (success l mem) ne nl t a = t l (Usable-OfType hints l ne a.0)
  with_list-Opens hints s try_list (failure e kept mem) ne nl t a = a
  with_list-Opens hints s try_list err_quit ne nl t a = nl a
