-- ===== src/Gai/Lookup/Laws.antt =====
-- libgai/getaddrinfo.c: the whole function.
use unpv13e.Base.{
  ℕ, zero, suc, ◌≤◌, ◌≡◌, ◌⊎◌, inl, inr, refl, List, [], ◌∷◌, Bool, true, false, not, ◌&&◌, Option,
  none, some, ◌==◌, arith, length, Bool-cases, Option-cases,
}
use unpv13e.Gai.Types.{Str, Addrinfo, Hints, Search, World, alloc, af_local, af_inet, af_inet6}
use unpv13e.Gai.Search.{ga_echeck, ga_nsearch}
use unpv13e.Gai.Search.Laws.{Accepted, IsIp, ga_echeck_iff, ga_nsearch-Searches}
use unpv13e.Gai.Build.Structs.{All}
use unpv13e.Gai.Build.Ports.{set_port-IsMade}
use unpv13e.Gai.Serv.{System, ga_serv}
use unpv13e.Gai.Serv.Laws.{ServedAs, ga_serv-ServedAs}
use unpv13e.Gai.Lookup.{
  Looking, looking, gave_up, set_canon, wants_canon, as_ip4, as_ip6, by_form, search_each, served,
  with_service, named, conclude, first_host, searched, is_local_name, is_path, text,
  hints_or_default, getaddrinfo,
}
use unpv13e.Gai.Lookup.Hosts.{
  Answers, Usable, ResolvesInternet, Fine, numeric-Fine, from_host-Fine, set_canon-Usable,
  length-set_canon,
}
use unpv13e.Gai.Lookup.Unix.{ga_unix-Answers}

module _ (sys : System) (resolves : ResolvesInternet sys) where
  by_form-Fine :
      (hostname : Option Str) (h : Hints) (several : Bool) (s : Search) (ip4 ip6 : Option Str)
      (l : List Addrinfo) (canon : Option Str) (w : World)
      → All (Usable h) l
      → Fine h (by_form sys hostname h several s ip4 ip6 l canon w)
  unfolding by_form
  by_form-Fine hostname h several s (some a) ip6 l canon w u =
      numeric-Fine h af_inet s a l canon w refl u
  by_form-Fine hostname h several s none (some a) l canon w u =
      numeric-Fine h af_inet6 s a l canon w refl u
  by_form-Fine hostname h true s none none l canon w u =
      from_host-Fine hostname h true _ l canon w (resolves.by2 s.host s.family) u
  by_form-Fine hostname h false s none none l canon w u =
      from_host-Fine hostname h false _ l canon w (resolves.by1 (s.family == af_inet6) s.host) u

  search_each-Fine :
      (hostname : Option Str) (h : Hints) (several : Bool) (ss : List Search) (k : Looking)
      → Fine h k
      → Fine h (search_each sys hostname h several ss k)
  unfolding search_each
  search_each-Fine hostname h several [] k u = u
  search_each-Fine hostname h several (s ∷ ss) (gave_up e canon w) u = u
  search_each-Fine hostname h several (s ∷ ss) (looking l canon w) u =
      search_each-Fine hostname h several ss _
        (by_form-Fine hostname h several s (as_ip4 sys s.host) (as_ip6 sys s.host) l canon w u)

  served-Answers :
      (h : Hints) (r : ℕ × List Addrinfo × World)
      → ServedAs (Usable h) h 1 r
      → Answers h (served sys r)
  served-Answers h (zero, l, w) a = a
  served-Answers h (suc e, l, w) a = λ q. absurd (omega (arith, q))

  ga_serv-Usable :
      (h : Hints) (serv : Str) (l : List Addrinfo) (w : World)
      → All (Usable h) l
      → 1 ≤ length l
      → ServedAs (Usable h) h 1 (ga_serv sys l h serv w)
  ga_serv-Usable h serv l w u some_ =
      ga_serv-ServedAs (Usable h) h
        (λ port t ai asked v. record {
          address = set_port-IsMade port t ai v.address;
          family = v.family;
          socktype = asked;
        })
        (λ ai v. record { address = v.address; family = v.family; socktype = v.socktype }) 1 sys l
        serv w u some_

  with_service-Answers :
      (h : Hints) (servname : Option Str) (l : List Addrinfo) (w : World)
      → All (Usable h) l
      → 1 ≤ length l
      → Answers h (with_service sys h servname l w)
  unfolding with_service
  with_service-Answers h none l w u some_ = (u, some_)
  with_service-Answers h (some []) l w u some_ = (u, some_)
  with_service-Answers h (some (c ∷ s)) l w u some_ =
      served-Answers h _ (ga_serv-Usable h (c ∷ s) l w u some_)

  canon-Answers :
      (h : Hints) (servname : Option Str) (name : Str) (l : List Addrinfo) (w : World)
      → All (Usable h) l
      → 1 ≤ length l
      → Answers h (with_service sys h servname (set_canon name l) w)
  canon-Answers h servname name l w u some_ =
      with_service-Answers h servname (set_canon name l) w (set_canon-Usable h name l u)
        (omega (arith, length-set_canon name l))

  named-Answers :
      (h : Hints) (servname : Option Str) (first : Str) (l : List Addrinfo) (canon : Option Str)
      (w : World)
      → All (Usable h) l
      → 1 ≤ length l
      → Answers h (named sys h servname first l canon w)
  unfolding named
  named-Answers h servname first l (some c) w u some_ = canon-Answers h servname c l w u some_
  named-Answers h servname first l none w u some_ = elim (Bool-cases (alloc w).0) [
    | inl e ↦ rw e (canon-Answers h servname first l (alloc w).1 u some_)
    | inr e ↦ rw e (λ q. absurd (omega (arith, q)))
  ]

  conclude-Answers :
      (hostname servname : Option Str) (h : Hints) (first : Str) (k : Looking)
      → Fine h k
      → Answers h (conclude sys hostname servname h first k)
  unfolding conclude
  conclude-Answers hostname servname h first (gave_up e canon w) u = u
  conclude-Answers hostname servname h first (looking [] canon w) u = λ q. absurd (omega (arith, q))
  conclude-Answers hostname servname h first (looking (ai ∷ l) canon w) u =
      elim (Bool-cases (wants_canon hostname h)) [
        | inl e ↦ rw e (named-Answers h servname first (ai ∷ l) canon w u (omega arith))
        | inr e ↦ rw e (with_service-Answers h servname (ai ∷ l) w u (omega arith))
      ]

  -- Behind the checks, the family is of the Internet, none, or the Unix domain.
  Accepted-family :
      (hostname servname : Option Str) (h : Hints)
      → Accepted hostname servname h.flags h.family h.socktype
      → IsIp h.family ⊎ (h.family ≡ af_local)
  Accepted-family hostname servname h a = ground (arith, a.known_family)

  searched-Answers :
      (hostname servname : Option Str) (h : Hints) (w : World)
      → IsIp h.family ⊎ (h.family ≡ af_local)
      → Answers h (searched sys hostname servname h w (ga_nsearch hostname h))
  unfolding searched
  searched-Answers hostname servname h w (inl ip) =
      let (ss, e, s) = ga_nsearch-Searches hostname h ip in
      rw e (
        conclude-Answers hostname servname h (first_host sys ss) _
          (search_each-Fine hostname h (length ss == 2) ss (looking [] none w) tt))
  searched-Answers hostname servname h w (inr local) = elim (Option-cases (ga_nsearch hostname h)) [
    | inl e ↦ rw e local
    | inr (ss, e) ↦ rw e (
        conclude-Answers hostname servname h (first_host sys ss) _
          (search_each-Fine hostname h (length ss == 2) ss (looking [] none w) tt))
  ]

  -- With a resolver that finds hosts of the Internet families, whatever memory there is, `getaddrinfo`
  -- returns 0 with a list that is not empty, each structure of which has an address of its family,
  -- the family of the hints and the socket type of the hints where these have one; or it returns an
  -- error that is not 0; or it ends the process, which takes hints of the Unix domain.
  pub getaddrinfo-Answers :
      (hostname servname : Option Str) (hintsp : Option Hints) (w : World)
      → Answers (hints_or_default sys hintsp) (getaddrinfo sys hostname servname hintsp w)
  unfolding getaddrinfo
  getaddrinfo-Answers hostname servname hintsp w =
      let h = hints_or_default sys hintsp in
      let rc = ga_echeck hostname servname h.flags h.family h.socktype h.protocol in
      elim (Bool-cases (not (rc == 0))) [
        | inl e ↦ rw e (ground (arith, e))
        | inr e ↦ elim (Bool-cases (is_local_name hostname && is_path servname)) [
          | inl u ↦ rw (e, u) (ga_unix-Answers sys (text sys servname) h w)
          | inr u ↦
              let ok : rc ≡ 0 = ground (arith, e) in
              let a =
                (ga_echeck_iff hostname servname h.flags h.family h.socktype h.protocol).0 ok in
              rw (e, u)
                (searched-Answers hostname servname h w (Accepted-family hostname servname h a))
        ]
      ]
