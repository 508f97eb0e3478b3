-- ===== src/Gai/Lookup/Unix.antt =====
-- libgai/ga_unix.c: the list behind it.
use unpv13e.Base.{
  ℕ, zero, suc, ◌≤◌, ◌≡◌, inl, inr, refl, sym, subst, ap, List, [], ◌∷◌, not, ◌&&◌, some, ◌==◌,
  arith, length, length-append, Bool-cases, Option-cases,
}
use unpv13e.Gai.Types.{
  Str, Addrinfo, Hints, World, alloc, af_unspec, af_local, sock_stream, sock_dgram, has_canonname,
}
use unpv13e.Gai.Build.{blank_ai, ga_aistruct}
use unpv13e.Gai.Build.Structs.{All, All-append, BuildMade, ga_aistruct-BuildMade}
use unpv13e.Gai.Serv.{System}
use unpv13e.Gai.Serv.Laws.{IsAsked}
use unpv13e.Gai.Lookup.{name_node, second, ga_unix}
use unpv13e.Gai.Lookup.Hosts.{
  Answers, IsAskedFamily, Usable, asked_of, blank_ai-Usable, set_canon-Usable, length-set_canon,
}

module _ (sys : System) where
  -- The list with the structures of `ga_unix`, before the node's name is asked for.
  abbrev UnixMade : Hints → ℕ × List Addrinfo × World → Type 0
  UnixMade h (zero, l, w) = All (Usable h) l × (1 ≤ length l)
  UnixMade h (suc e, l, w) = Unit {0}

  ga_aistruct-UnixMade :
      (h h' : Hints) (path : Str) (l : List Addrinfo) (r : ℕ × List Addrinfo × World)
      → All (Usable h) l
      → IsAskedFamily h af_local
      → IsAsked h h'.socktype
      → BuildMade h' af_local l r
      → UnixMade h r
  ga_aistruct-UnixMade h h' path l (zero, l', w) u f t (a, n, e, m) = (
    subst (All (Usable h)) (sym e)
        (All-append (Usable h) l _ u (blank_ai-Usable h h' af_local n a m f t, tt)),
    omega (
      arith,
      ap length e,
      length-append l (record (blank_ai h' af_local) { addr = some a; addrlen = n } ∷ []),
    ),
  )
  ga_aistruct-UnixMade h h' path l (suc e, l', w) u f t b = tt

  made_unix :
      (h h' : Hints) (path : Str) (l : List Addrinfo) (w : World)
      → All (Usable h) l
      → IsAskedFamily h af_local
      → IsAsked h h'.socktype
      → UnixMade h (ga_aistruct h' path af_local l w)
  made_unix h h' path l w u f t =
      ga_aistruct-UnixMade h h' path l _ u f t (ga_aistruct-BuildMade h' path af_local l w refl)

  second-UnixMade :
      (h h' : Hints) (path : Str) (r : ℕ × List Addrinfo × World)
      → IsAskedFamily h af_local
      → IsAsked h h'.socktype
      → UnixMade h r
      → UnixMade h (second sys h' path r)
  second-UnixMade h h' path (zero, l, w) f t (u, some_) = made_unix h h' path l w u f t
  second-UnixMade h h' path (suc e, l, w) f t u = tt

  name_node-Answers :
      (h : Hints) (r : ℕ × List Addrinfo × World) → UnixMade h r → Answers h (name_node sys h r)
  unfolding name_node
  name_node-Answers h (suc e, l, w) u = λ q. absurd (omega (arith, q))
  name_node-Answers h (zero, l, w) (u, some_) = elim (Bool-cases (has_canonname h.flags)) [
    | inr e ↦ rw e (u, some_)
    | inl e ↦ elim (Option-cases sys.nodename) [
      | inl nameless ↦ rw (e, nameless) (λ q. absurd (omega (arith, q)))
      | inr (n, is_n) ↦ elim (Bool-cases (alloc w).0) [
        | inr full ↦ rw (e, is_n, full) (λ q. absurd (omega (arith, q)))
        | inl ok ↦ rw (e, is_n, ok) (set_canon-Usable h n l u, omega (arith, length-set_canon n l))
      ]
    ]
  ]

  pub ga_unix-Answers : (path : Str) (h : Hints) (w : World) → Answers h (ga_unix sys path h w)
  unfolding ga_unix
  ga_unix-Answers path h w =
      elim (Bool-cases (not (h.family == af_unspec) && not (h.family == af_local))) [
        | inl e ↦ rw e (λ q. absurd (omega (arith, q)))
        | inr e ↦ elim (Bool-cases (h.socktype == 0)) [
          | inl z ↦
              let zero_type : h.socktype ≡ 0 = ground (arith, z) in
              rw (e, z)
                (name_node-Answers h _ (
                  second-UnixMade h (record h { socktype = sock_dgram }) path _
                    (asked_of h af_local e) (inl zero_type)
                    (made_unix h (record h { socktype = sock_stream }) path [] w tt
                      (asked_of h af_local e) (inl zero_type))))
          | inr z ↦
              rw (e, z)
                (name_node-Answers h _
                  (made_unix h h path [] w tt (asked_of h af_local e) (inr refl)))
        ]
      ]
