-- ===== src/Gai/Lookup/Hosts.antt =====
-- libgai/getaddrinfo.c: the list behind each part of the search for the host.
use unpv13e.Base.{
  ◌≤◌, ℕ, zero, suc, ◌≡◌, ◌≢◌, ◌⊎◌, inl, inr, refl, sym, subst, List, [], ◌∷◌, Bool, true, false,
  not, ◌&&◌, ◌||◌, Option, none, some, ◌==◌, arith, length, Bool-cases,
}
use unpv13e.Gai.Types.{Str, Sockaddr, Addrinfo, Hints, Search, World, alloc, af_unspec, af_local}
use unpv13e.Gai.Build.{blank_ai, is_ip, ga_aistruct}
use unpv13e.Gai.Build.Structs.{All, All-append, OfFamily, BuildMade, ga_aistruct-BuildMade}
use unpv13e.Gai.Serv.{Hostent, host, no_host, HErrno, System}
use unpv13e.Gai.Serv.Laws.{IsAsked}
use unpv13e.Gai.Lookup.{
  Result, success, failure, err_quit, Looking, looking, gave_up, set_canon, of_herrno, built,
  numeric, each_addr, wants_canon, save_canon, from_host,
}

-- A family and a socket type that the hints ask for.
abbrev pub IsAskedFamily : Hints → ℕ → Type 0
IsAskedFamily h family = (h.family ≡ af_unspec) ⊎ (family ≡ h.family)

-- A structure that a caller can use: its address is there and is of its family, and the family and
-- the socket type are those of the hints, where these have one.
pub record Usable (h : Hints) (ai : Addrinfo) : Type 0 where
  pub address : OfFamily ai.family ai.addr
  pub family : IsAskedFamily h ai.family
  pub socktype : IsAsked h ai.socktype

-- A list with a structure or more, all of them usable; an error that is not 0; and the process ends
-- for hints of the Unix domain alone.
abbrev pub Answers : Hints → Result → Type 0
Answers h (success l w) = All (Usable h) l × (1 ≤ length l)
Answers h (failure e kept w) = e ≢ 0
Answers h err_quit = h.family ≡ af_local

-- The resolver finds hosts of the Internet families.
abbrev pub IsInternet : Hostent → Type 0
IsInternet (host name addrtype addrs) = is_ip addrtype ≡ true
IsInternet (no_host e) = Unit {0}

pub record ResolvesInternet (sys : System) : Type 0 where
  pub by2 : (s : Str) (family : ℕ) → IsInternet (sys.gethostbyname2 s family)
  pub by1 : (v6 : Bool) (s : Str) → IsInternet (sys.gethostbyname v6 s)

abbrev pub Fine : Hints → Looking → Type 0
Fine h (looking l canon w) = All (Usable h) l
Fine h (gave_up e canon w) = e ≢ 0

pub asked_of :
    (h : Hints) (family : ℕ)
    → (not (h.family == af_unspec) && not (h.family == family)) ≡ false
    → IsAskedFamily h family
asked_of h family e = ground (arith, e)

ip_Local : (family : ℕ) → is_ip family ≡ true → (is_ip family || family == af_local) ≡ true
ip_Local family e = rw e refl

pub blank_ai-Usable :
    (h h' : Hints) (family n : ℕ) (a : Sockaddr)
    → OfFamily family (some a)
    → IsAskedFamily h family
    → IsAsked h h'.socktype
    → Usable h (record (blank_ai h' family) { addr = some a; addrlen = n })
blank_ai-Usable h h' family n a m f t = record { address = m; family = f; socktype = t }

pub built-Fine :
    (h h' : Hints) (family : ℕ) (l : List Addrinfo) (canon : Option Str)
    (r : ℕ × List Addrinfo × World)
    → All (Usable h) l
    → IsAskedFamily h family
    → IsAsked h h'.socktype
    → BuildMade h' family l r
    → Fine h (built canon r)
built-Fine h h' family l canon (zero, l', w) u f t (a, n, e, m) =
    subst (All (Usable h)) (sym e)
      (All-append (Usable h) l _ u (blank_ai-Usable h h' family n a m f t, tt))
built-Fine h h' family l canon (suc e, l', w) u f t b = λ q. absurd (omega (arith, q))

built_ip-Fine :
    (h : Hints) (addr : Str) (family : ℕ) (l : List Addrinfo) (canon : Option Str) (w : World)
    → All (Usable h) l
    → IsAskedFamily h family
    → is_ip family ≡ true
    → Fine h (built canon (ga_aistruct h addr family l w))
built_ip-Fine h addr family l canon w u f ip =
    built-Fine h h family l canon _ u f (inr refl)
      (ga_aistruct-BuildMade h addr family l w (ip_Local family ip))

pub numeric-Fine :
    (h : Hints) (family : ℕ) (s : Search) (addr : Str) (l : List Addrinfo) (canon : Option Str)
    (w : World)
    → is_ip family ≡ true
    → All (Usable h) l
    → Fine h (numeric h family s addr l canon w)
unfolding numeric
numeric-Fine h family s addr l canon w ip u =
    elim (Bool-cases (not (h.family == af_unspec) && not (h.family == family))) [
      | inl e ↦ rw e (λ q. absurd (omega (arith, q)))
      | inr e ↦ elim (Bool-cases (s.family == family)) [
        | inl same ↦ rw (e, same) (built_ip-Fine h addr family l canon w u (asked_of h family e) ip)
        | inr other ↦ rw (e, other) u
      ]
    ]

each_addr-Fine :
    (h : Hints) (family : ℕ) (addrs : List Str) (k : Looking)
    → is_ip family ≡ true
    → IsAskedFamily h family
    → Fine h k
    → Fine h (each_addr h family addrs k)
unfolding each_addr
each_addr-Fine h family [] k ip f u = u
each_addr-Fine h family (a ∷ as') (gave_up e canon w) ip f u = u
each_addr-Fine h family (a ∷ as') (looking l canon w) ip f u =
    each_addr-Fine h family as' _ ip f (built_ip-Fine h a family l canon w u f ip)

save_canon-Fine :
    (hostname : Option Str) (h : Hints) (name : Str) (l : List Addrinfo) (canon : Option Str)
    (w : World)
    → All (Usable h) l
    → Fine h (save_canon hostname h name l canon w)
unfolding save_canon
save_canon-Fine hostname h name l (some c) w u = u
save_canon-Fine hostname h name l none w u = elim (Bool-cases (wants_canon hostname h)) [
  | inr e ↦ rw e u
  | inl e ↦ elim (Bool-cases (alloc w).0) [
    | inl ok ↦ rw (e, ok) u
    | inr ok ↦ rw (e, ok) (λ q. absurd (omega (arith, q)))
  ]
]

of_herrno_ne : (e : HErrno) → of_herrno e ≢ 0
of_herrno_ne e = λ q. ground (arith, q)

pub from_host-Fine :
    (hostname : Option Str) (h : Hints) (several : Bool) (p : Hostent) (l : List Addrinfo)
    (canon : Option Str) (w : World)
    → IsInternet p
    → All (Usable h) l
    → Fine h (from_host hostname h several p l canon w)
unfolding from_host
from_host-Fine hostname h true (no_host e) l canon w ip u = u
from_host-Fine hostname h false (no_host e) l canon w ip u = of_herrno_ne e
from_host-Fine hostname h several (host name addrtype addrs) l canon w ip u =
    elim (Bool-cases (not (h.family == af_unspec) && not (h.family == addrtype))) [
      | inl e ↦ rw e (λ q. absurd (omega (arith, q)))
      | inr e ↦ rw e (
          each_addr-Fine h addrtype addrs _ ip (asked_of h addrtype e)
            (save_canon-Fine hostname h name l canon w u))
    ]

pub set_canon-Usable :
    (h : Hints) (name : Str) (l : List Addrinfo)
    → All (Usable h) l
    → All (Usable h) (set_canon name l)
set_canon-Usable h name [] u = u
set_canon-Usable h name (ai ∷ l) (u, us) =
    (record { address = u.address; family = u.family; socktype = u.socktype }, us)

pub length-set_canon : (name : Str) (l : List Addrinfo) → length (set_canon name l) ≡ length l
length-set_canon name [] = refl
length-set_canon name (ai ∷ l) = refl
