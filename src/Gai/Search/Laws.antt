-- ===== src/Gai/Search/Laws.antt =====
-- libgai/ga_echeck.c and libgai/ga_nsearch.c: the arguments that are let through, and the search.
use unpv13e.Base.{
  ℕ, ◌≡◌, ◌≢◌, ◌<◌, ◌↔◌, ◌⊎◌, inl, inr, List, [], ◌∷◌, true, false, Option, none, some, ◌==◌,
  if◌then◌else◌, arith, length, Bool-cases,
}
use unpv13e.Gai.Types.{
  Str, Search, Hints, af_unspec, af_local, af_inet, af_inet6, has_passive, is_blank,
}
use unpv13e.Gai.Search.{
  is_ip_socktype, is_local_socktype, ga_echeck, entries, search_of, checked, ga_nsearch, any4, any6,
  localhost, loopback6,
}

-- Arguments that `ga_echeck` lets through.
pub record Accepted (hostname servname : Option Str) (flags family socktype : ℕ) : Type 0 where
  pub known_flags : flags < 4
  pub a_name : (is_blank hostname ≡ false) ⊎ (is_blank servname ≡ false)
  pub known_family :
      (family ≡ af_unspec)
      ⊎ (((family ≡ af_inet) ⊎ (family ≡ af_inet6)) × (is_ip_socktype socktype ≡ true))
      ⊎ ((family ≡ af_local) × (is_local_socktype socktype ≡ true))

ga_echeck-Accepted :
    (hostname servname : Option Str) (flags family socktype protocol : ℕ)
    → ga_echeck hostname servname flags family socktype protocol ≡ 0
    → Accepted hostname servname flags family socktype
unfolding ga_echeck
ga_echeck-Accepted hostname servname flags family socktype protocol h = ground arith

ga_echeck_of_Accepted :
    (hostname servname : Option Str) (flags family socktype protocol : ℕ)
    → Accepted hostname servname flags family socktype
    → ga_echeck hostname servname flags family socktype protocol ≡ 0
unfolding ga_echeck
ga_echeck_of_Accepted hostname servname flags family socktype protocol a = ground arith

-- `ga_echeck` returns 0 exactly where no flag but the two public ones is set, a host or a service is
-- named, and the family is unspecified, or IPv4 or IPv6 with one of their socket types or none, or
-- Unix domain with one of its types or none.
pub ga_echeck_iff :
    (hostname servname : Option Str) (flags family socktype protocol : ℕ)
    → (ga_echeck hostname servname flags family socktype protocol ≡ 0)
      ↔ Accepted hostname servname flags family socktype
ga_echeck_iff hostname servname flags family socktype protocol = (
  ga_echeck-Accepted hostname servname flags family socktype protocol,
  ga_echeck_of_Accepted hostname servname flags family socktype protocol,
)

-- An entry that can be looked up for the hints' family.
pub record Fits (family : ℕ) (s : Search) : Type 0 where
  pub host : s.host ≢ []
  pub ip : (s.family ≡ af_inet) ⊎ (s.family ≡ af_inet6)
  pub asked : (family ≡ af_unspec) ⊎ (s.family ≡ family)

abbrev pub AllFit : ℕ → List Search → Type 0
AllFit family [] = Unit {0}
AllFit family (a ∷ s) = Fits family a × AllFit family s

-- One entry for a family, and two for none.
pub record Searches (family : ℕ) (s : List Search) : Type 0 where
  pub fit : AllFit family s
  pub number : length s ≡ (if family == af_unspec then 2 else 1)

abbrev pub IsIp : ℕ → Type 0
IsIp family = (family ≡ af_unspec) ⊎ (family ≡ af_inet) ⊎ (family ≡ af_inet6)

entries-Searches :
    (family : ℕ) (host4 host6 : Str)
    → host4 ≢ []
    → host6 ≢ []
    → IsIp family
    → Searches family (entries family host4 host6)
      × (checked (entries family host4 host6) ≡ some (entries family host4 host6))
entries-Searches family host4 host6 h4 h6 ip = ground arith

-- The names that stand for no host.
blank-Searches :
    (flags family : ℕ)
    → IsIp family
    → let s =
        if has_passive flags
        then entries family any4 any6
        else entries family localhost loopback6 in
      (checked s ≡ some s) × Searches family s
blank-Searches flags family ip = elim (Bool-cases (has_passive flags)) [
  | inl e ↦ let (f, c) = entries-Searches family any4 any6 (λ q. cc) (λ q. cc) ip in rw e (c, f)
  | inr e ↦
      let (f, c) = entries-Searches family localhost loopback6 (λ q. cc) (λ q. cc) ip in rw e (c, f)
]

-- For an IP family or none, `ga_nsearch` returns one entry for a family and two for none, each with a
-- name that is not empty and a family that was asked for; the process goes on.
pub ga_nsearch-Searches :
    (hostname : Option Str) (h : Hints)
    → IsIp h.family
    → (s : List Search) × (ga_nsearch hostname h ≡ some s) × Searches h.family s
unfolding ga_nsearch
ga_nsearch-Searches (some (c ∷ s)) h ip =
    let (f, e) = entries-Searches h.family (c ∷ s) (c ∷ s) (λ q. cc) (λ q. cc) ip in
    (entries h.family (c ∷ s) (c ∷ s), e, f)
ga_nsearch-Searches none h ip =
    let (e, f) = blank-Searches h.flags h.family ip in (search_of none h.flags h.family, e, f)
ga_nsearch-Searches (some []) h ip =
    let (e, f) = blank-Searches h.flags h.family ip in (search_of (some []) h.flags h.family, e, f)

-- Hints for the Unix domain, which `ga_echeck` accepts, end the process in `ga_nsearch`, whatever the
-- host name: where the name is not that of the local host, `getaddrinfo` comes to this call.
pub ga_nsearch-af_local :
    (hostname servname : Option Str) (h : Hints)
    → h.family ≡ af_local
    → ga_echeck hostname servname h.flags h.family h.socktype h.protocol ≡ 0
    → ga_nsearch hostname h ≡ none
unfolding ga_nsearch
ga_nsearch-af_local (some (c ∷ s)) servname h e k = ground arith
ga_nsearch-af_local none servname h e k = ground arith
ga_nsearch-af_local (some []) servname h e k = ground arith
