-- ===== src/Gai/Build/Ports.antt =====
-- libgai/ga_port.c and libgai/ga_clone.c: a pass over the list.
use unpv13e.Base.{
  ◌≤◌, length-append, subst, ℕ, suc, ◌+◌, ◌≡◌, inl, inr, refl, sym, List, [], ◌∷◌, true, Option,
  none, some, ◌==◌, arith, length, Bool-cases,
}
use unpv13e.Gai.Types.{
  Sockaddr, sin, sin6, sun, Addrinfo, World, alloc, sock_stream, sock_dgram, has_clone,
}
use unpv13e.Gai.Build.{
  Clone, no_memory, half, whole, ga_clone, put_port, is_ip, set_port, Pass, after, counted,
  with_clone, ga_port,
}
use unpv13e.Gai.Build.Structs.{All, All-append, OfFamily, IsMade}

put_port-OfFamily :
    (family port : ℕ) (a : Option Sockaddr) → OfFamily family a → OfFamily family (put_port port a)
put_port-OfFamily family port none h = h
put_port-OfFamily family port (some (sin a p)) h = h
put_port-OfFamily family port (some (sin6 a p)) h = h
put_port-OfFamily family port (some (sun a)) h = h

pub set_port-IsMade :
    (port socktype : ℕ) (ai : Addrinfo) → IsMade ai → IsMade (set_port port socktype ai)
set_port-IsMade port socktype ai h = elim (Bool-cases (is_ip ai.family)) [
  | inl e ↦ rw e (put_port-OfFamily ai.family port ai.addr h)
  | inr e ↦ rw e h
]

-- A pass that succeeds leaves structures of which the predicate holds, `k` of them or more.
abbrev pub PassAll : (Addrinfo → Type 0) → ℕ → Pass → Type 0
PassAll P k (none, l, w) = Unit {0}
PassAll P k (some n, l, w) = All P l × (k ≤ length l)

abbrev pub copy : Addrinfo → Addrinfo
copy ai = record ai { flags = 0; canonname = none }

abbrev IsCopy : Addrinfo → Clone × World → Type 0
IsCopy ai (no_memory, w) = Unit {0}
IsCopy ai (half new, w) = Unit {0}
IsCopy ai (whole new, w) = new ≡ copy ai

ga_clone-IsCopy : (ai : Addrinfo) (w : World) → IsCopy ai (ga_clone ai w)
unfolding ga_clone
ga_clone-IsCopy ai w = elim (Bool-cases (alloc w).0) [
  | inr e ↦ rw e tt
  | inl e ↦ elim (Bool-cases (alloc (alloc w).1).0) [
    | inr e' ↦ rw (e, e') tt
    | inl e' ↦ rw (e, e') refl
  ]
]

module _ (P : Addrinfo → Type 0) (port socktype : ℕ)
    (at_set : (ai : Addrinfo) → P ai → P (set_port port socktype ai))
    (at_copy : (ai : Addrinfo) → P ai → P (copy ai)) where
  after-PassAll :
      (front : List Addrinfo) (n k : ℕ) (p : Pass)
      → All P front
      → 1 ≤ length front
      → PassAll P k p
      → PassAll P (suc k) (after front n p)
  unfolding after
  after-PassAll front n k (none, l, w) h one a = a
  after-PassAll front n k (some m, l, w) h one (a, le) =
      (All-append P front l h a, omega (arith, length-append front l))

  with_clone-PassAll :
      (next : World → Pass) (k : ℕ) (ai : Addrinfo) (l : List Addrinfo) (c : Clone × World)
      → P ai
      → ((w : World) → PassAll P k (next w))
      → IsCopy ai c
      → PassAll P (suc k) (with_clone next port socktype ai l c)
  unfolding with_clone
  with_clone-PassAll next k ai l (no_memory, w) h a c = tt
  with_clone-PassAll next k ai l (half new, w) h a c = tt
  with_clone-PassAll next k ai l (whole new, w) h a c =
      after-PassAll (ai ∷ set_port port socktype new ∷ []) (counted new) k (next w)
        (h, (at_set new (subst P (sym c) (at_copy ai h)), tt)) (omega arith) (a w)

  -- What holds of every structure, and is kept where the port is set and where a copy is made, holds
  -- of every structure behind a pass that succeeds, and there are no fewer.
  pub ga_port-PassAll :
      (l : List Addrinfo) (w : World) → All P l → PassAll P (length l) (ga_port port socktype l w)
  unfolding ga_port
  ga_port-PassAll [] w h = (tt, omega arith)
  ga_port-PassAll (ai ∷ l) w (h, hs) =
      let rest : (w' : World) → PassAll P (length l) (ga_port port socktype l w') =
        λ w'. ga_port-PassAll l w' hs in
      let filled : PassAll P (suc (length l))
          (after (set_port port socktype ai ∷ []) (counted ai) (ga_port port socktype l w)) =
        after-PassAll (set_port port socktype ai ∷ []) (counted ai) (length l) _ (at_set ai h, tt)
          (omega arith) (rest w) in
      elim (Bool-cases (has_clone ai.flags)) [
        | inl e ↦ elim (Bool-cases (ai.socktype == 0)) [
          | inl z ↦ rw (e, z) filled
          | inr z ↦
              rw (e, z)
                (with_clone-PassAll (ga_port port socktype l) (length l) ai l (ga_clone ai w) h rest
                  (ga_clone-IsCopy ai w))
        ]
        | inr e ↦ elim (Bool-cases (ai.socktype == socktype)) [
          | inl z ↦ rw (e, z) filled
          | inr z ↦
              rw (e, z) (after-PassAll (ai ∷ []) 0 (length l) _ (h, tt) (omega arith) (rest w))
        ]
      ]

-- A pass over complete structures that does not run out of memory leaves complete structures, the
-- clones among them, and no fewer than there were.
pub ga_port-PassMade :
    (port socktype : ℕ) (l : List Addrinfo) (w : World)
    → All IsMade l
    → PassAll IsMade (length l) (ga_port port socktype l w)
ga_port-PassMade port socktype =
    ga_port-PassAll IsMade port socktype (set_port-IsMade port socktype) (λ ai h. h)

-- Structures as the search for the host leaves them, where no socket type was asked for.
abbrev pub IsOpen : Addrinfo → Type 0
IsOpen ai = (has_clone ai.flags ≡ true) × (ai.socktype ≡ 0) × (is_ip ai.family ≡ true)

-- Each structure with the first port, and behind it a copy with the second.
abbrev pub in_pairs : ℕ → ℕ → List Addrinfo → List Addrinfo
in_pairs p q [] = []
in_pairs p q (ai ∷ l) =
    set_port p sock_stream ai
    ∷ set_port q sock_dgram (record (set_port p sock_stream ai) { flags = 0; canonname = none })
    ∷ in_pairs p q l

abbrev pub all_set : ℕ → ℕ → List Addrinfo → List Addrinfo
all_set p t [] = []
all_set p t (ai ∷ l) = set_port p t ai ∷ all_set p t l

counted_ip : (ai : Addrinfo) → is_ip ai.family ≡ true → counted ai ≡ 1
counted_ip ai e = rw e

alloc_roomy : (w : World) → w.answers ≡ [] → alloc w ≡ (true, w)
alloc_roomy w e = rw e

ga_clone_roomy :
    (ai : Addrinfo) (w : World)
    → w.answers ≡ []
    → ga_clone ai w ≡ (whole (record ai { flags = 0; canonname = none }), w)
unfolding ga_clone
ga_clone_roomy ai w e = rw (alloc_roomy w e, alloc_roomy w e)

ga_port_open :
    (p : ℕ) (l : List Addrinfo) (w : World)
    → All IsOpen l
    → ga_port p sock_stream l w ≡ (some (length l), all_set p sock_stream l, w)
unfolding ga_port
ga_port_open p [] w h = refl
ga_port_open p (ai ∷ l) w ((c, z, ip), hs) =
    let zero_type : (ai.socktype == 0) ≡ true = ground (arith, z) in
    let n : counted ai + length l ≡ suc (length l) = omega (arith, counted_ip ai ip) in
    rw (c, zero_type, ga_port_open p l w hs) (rw n)

ga_port_again :
    (p q : ℕ) (l : List Addrinfo) (w : World)
    → w.answers ≡ []
    → All IsOpen l
    → ga_port q sock_dgram (all_set p sock_stream l) w ≡ (some (length l), in_pairs p q l, w)
unfolding ga_port
ga_port_again p q [] w e h = refl
ga_port_again p q (ai ∷ l) w e ((c, z, ip), hs) =
    let n : counted ai + length l ≡ suc (length l) = omega (arith, counted_ip ai ip) in
    rw (c, ga_clone_roomy (set_port p sock_stream ai) w e, ga_port_again p q l w e hs) (rw n)

-- The list that the search for the host leaves where no socket type was asked for, with memory to be
-- had: the pass for TCP and then the pass for UDP each set a port for every structure, and leave
-- each structure as a stream with the first port and, right behind it, a copy as datagrams with the
-- second port, not marked for more copies.
pub ga_port-pairs :
    (p q : ℕ) (l : List Addrinfo) (w : World)
    → w.answers ≡ []
    → All IsOpen l
    → (l' : List Addrinfo) × (ga_port p sock_stream l w ≡ (some (length l), l', w))
      × (ga_port q sock_dgram l' w ≡ (some (length l), in_pairs p q l, w))
ga_port-pairs p q l w e h =
    (all_set p sock_stream l, ga_port_open p l w h, ga_port_again p q l w e h)
