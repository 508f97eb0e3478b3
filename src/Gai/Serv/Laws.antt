-- ===== src/Gai/Serv/Laws.antt =====
-- libgai/ga_serv.c: the list and the value behind it.
use unpv13e.Base.{
  length, ◌≤◌, ℕ, zero, suc, ◌%◌, ◌^◌, ◌≡◌, ◌≢◌, ◌<◌, ◌⊎◌, inl, inr, refl, List, [], ◌∷◌, true,
  false, Option, none, some, ◌==◌, ◌||◌, if◌then◌else◌, arith, Bool-cases,
}
use unpv13e.Gai.Types.{
  Str, Addrinfo, Hints, World, sock_stream, sock_dgram, eai_memory, eai_noname, eai_service,
}
use unpv13e.Gai.Build.{set_port, Pass}
use unpv13e.Gai.Build.Structs.{All, IsMade}
use unpv13e.Gai.Build.Ports.{
  copy, PassAll, ga_port-PassAll, set_port-IsMade, IsOpen, in_pairs, ga_port-pairs,
}
use unpv13e.Gai.Serv.{
  System, tcp, udp, atoi, Filling, going, stopped, add_pass, fill, fill_service, starts_with_digit,
  found_or_not, by_number, by_name, ga_serv,
}

-- A socket type that a pass is made for.
abbrev pub IsAsked : Hints → ℕ → Type 0
IsAsked h t = (h.socktype ≡ 0) ⊎ (t ≡ h.socktype)

-- The error is memory's, or tells that no structure took the service.
abbrev pub IsServError : Hints → ℕ → Type 0
IsServError h e =
    (e ≡ eai_memory) ⊎ (h.socktype ≡ 0) × (e ≡ eai_noname) ⊎ (h.socktype ≢ 0) × (e ≡ eai_service)

-- The value is 0 and the predicate holds of every structure, with `k` of them or more, or the value
-- is one of the errors.
abbrev pub ServedAs : (Addrinfo → Type 0) → Hints → ℕ → ℕ × List Addrinfo × World → Type 0
ServedAs P h k (zero, l, w) = All P l × (k ≤ length l)
ServedAs P h k (suc e, l, w) = IsServError h (suc e)

abbrev FillAll : (Addrinfo → Type 0) → ℕ → Filling → Type 0
FillAll P k (going n l w) = All P l × (k ≤ length l)
FillAll P k (stopped e l w) = e ≡ eai_memory

add_pass-FillAll :
    (P : Addrinfo → Type 0) (k m n : ℕ) (p : Pass)
    → k ≤ m
    → PassAll P m p
    → FillAll P k (add_pass n p)
add_pass-FillAll P k m n (none, l, w) le h = refl
add_pass-FillAll P k m n (some i, l, w) le (h, more) = (h, omega arith)

no_match : (h : Hints) → IsServError h (if h.socktype == 0 then eai_noname else eai_service)
no_match h = ground arith

nonzero-ServedAs :
    (P : Addrinfo → Type 0) (h : Hints) (k e : ℕ) (l : List Addrinfo) (w : World)
    → IsServError h e
    → ServedAs P h k (e, l, w)
nonzero-ServedAs P h k zero l w i = absurd (ground (arith, i))
nonzero-ServedAs P h k (suc e) l w i = i

found_or_not-ServedAs :
    (P : Addrinfo → Type 0) (h : Hints) (k : ℕ) (f : Filling)
    → FillAll P k f
    → ServedAs P h k (found_or_not h.socktype f)
unfolding found_or_not
found_or_not-ServedAs P h k (stopped e l w) a = nonzero-ServedAs P h k e l w (inl a)
found_or_not-ServedAs P h k (going zero l w) a = nonzero-ServedAs P h k _ l w (no_match h)
found_or_not-ServedAs P h k (going (suc n) l w) a = a

module _ (P : Addrinfo → Type 0) (h : Hints)
    (at_set : (port t : ℕ) (ai : Addrinfo) → IsAsked h t → P ai → P (set_port port t ai))
    (at_copy : (ai : Addrinfo) → P ai → P (copy ai)) (k : ℕ) where
  fill-FillAll :
      (port t : ℕ) (f : Filling) → IsAsked h t → FillAll P k f → FillAll P k (fill port t f)
  unfolding fill
  fill-FillAll port t (stopped e l w) a i = i
  fill-FillAll port t (going n l w) a (i, le) =
      add_pass-FillAll P k (length l) n _ le
        (ga_port-PassAll P port t (λ ai. at_set port t ai a) at_copy l w i)

  fill_service-FillAll :
      (o : Option ℕ) (t : ℕ) (f : Filling)
      → IsAsked h t
      → FillAll P k f
      → FillAll P k (fill_service o t f)
  unfolding fill_service
  fill_service-FillAll none t f a i = i
  fill_service-FillAll (some port) t f a i = fill-FillAll port t f a i

  by_number-FillAll :
      (sys : System) (port : ℕ) (f : Filling)
      → FillAll P k f
      → FillAll P k (by_number sys port h.socktype f)
  unfolding by_number
  by_number-FillAll sys port f i = elim (Bool-cases (h.socktype == 0)) [
    | inl e ↦
        let z : h.socktype ≡ 0 = ground (arith, e) in
        rw e (fill-FillAll port sock_dgram _ (inl z) (fill-FillAll port sock_stream f (inl z) i))
    | inr e ↦ rw e (fill-FillAll port h.socktype f (inr refl) i)
  ]

  -- A pass by name is made where its type is asked for.
  tried-FillAll :
      (o : Option ℕ) (t : ℕ) (f : Filling)
      → FillAll P k f
      → FillAll P k (if h.socktype == 0 || h.socktype == t then fill_service o t f else f)
  tried-FillAll o t f i = elim (Bool-cases (h.socktype == 0 || h.socktype == t)) [
    | inl e ↦ rw e (fill_service-FillAll o t f (ground (arith, e)) i)
    | inr e ↦ rw e i
  ]

  by_name-FillAll :
      (sys : System) (serv : Str) (f : Filling)
      → FillAll P k f
      → FillAll P k (by_name sys serv h.socktype f)
  unfolding by_name
  by_name-FillAll sys serv f i =
      tried-FillAll (sys.getservbyname serv udp) sock_dgram _
        (tried-FillAll (sys.getservbyname serv tcp) sock_stream f i)

  -- What is kept where a port is set for a type that is asked for, and where a copy is made, holds of
  -- every structure where `ga_serv` returns 0, and there are no fewer.
  pub ga_serv-ServedAs :
      (sys : System) (l : List Addrinfo) (serv : Str) (w : World)
      → All P l
      → k ≤ length l
      → ServedAs P h k (ga_serv sys l h serv w)
  unfolding ga_serv
  ga_serv-ServedAs sys l serv w i le =
      let port = sys.htons (atoi serv % 2 ^ 16) in
      elim (Bool-cases (starts_with_digit serv)) [
        | inl e ↦
            rw e (found_or_not-ServedAs P h k _ (by_number-FillAll sys port (going 0 l w) (i, le)))
        | inr e ↦
            rw e (found_or_not-ServedAs P h k _ (by_name-FillAll sys serv (going 0 l w) (i, le)))
      ]

-- On a list of complete structures `ga_serv` returns 0 and leaves complete structures, no fewer, or returns
-- EAI_MEMORY, or tells that no structure took the service: EAI_NONAME where the hints have no
-- socket type, and EAI_SERVICE where they have one.
pub ga_serv-Answers :
    (sys : System) (l : List Addrinfo) (h : Hints) (serv : Str) (w : World)
    → All IsMade l
    → ServedAs IsMade h (length l) (ga_serv sys l h serv w)
ga_serv-Answers sys l h serv w i =
    ga_serv-ServedAs IsMade h (λ port t ai a. set_port-IsMade port t ai) (λ ai k. k) (length l) sys
      l serv w i (omega arith)

found_some :
    (t n : ℕ) (l : List Addrinfo) (w : World) → 0 < n → found_or_not t (going n l w) ≡ (0, l, w)
unfolding found_or_not
found_some t zero l w p = absurd (omega arith)
found_some t (suc n) l w p = refl

-- A port number on a list as the search for the host leaves it, where no socket type was asked for,
-- which is not empty, with memory to be had: `ga_serv` returns 0, and each structure is now a
-- stream with the port, the low 16 bits of the number in network byte order, and right behind it
-- stands its copy as datagrams with the same port.
pub ga_serv-pairs :
    (sys : System) (ai : Addrinfo) (l : List Addrinfo) (h : Hints) (serv : Str) (w : World)
    → All IsOpen (ai ∷ l)
    → h.socktype ≡ 0
    → starts_with_digit serv ≡ true
    → w.answers ≡ []
    → let port = sys.htons (atoi serv % 2 ^ 16) in
      ga_serv sys (ai ∷ l) h serv w ≡ (0, in_pairs port port (ai ∷ l), w)
unfolding ga_serv by_number fill found_or_not
ga_serv-pairs sys ai l h serv w opened z digit room =
    let port = sys.htons (atoi serv % 2 ^ 16) in
    let (l', first, second) = ga_port-pairs port port (ai ∷ l) w room opened in
    rw (digit, z, first, second) (found_some 0 _ (in_pairs port port (ai ∷ l)) w (omega arith))

-- A service that is not a number and that the database has for neither protocol leaves the list as it
-- is, and the value is EAI_NONAME without a socket type and EAI_SERVICE with one.
pub ga_serv-unknown :
    (sys : System) (l : List Addrinfo) (h : Hints) (serv : Str) (w : World)
    → starts_with_digit serv ≡ false
    → sys.getservbyname serv tcp ≡ none
    → sys.getservbyname serv udp ≡ none
    → ga_serv sys l h serv w ≡ (if h.socktype == 0 then eai_noname else eai_service, l, w)
unfolding ga_serv by_name fill_service found_or_not
ga_serv-unknown sys l h serv w no_digit no_tcp no_udp = rw (no_digit, no_tcp, no_udp) (ground arith)
