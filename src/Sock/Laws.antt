-- ===== src/Sock/Laws.antt =====
-- lib/sock_cmp_addr.c and its kin: the comparisons and the setters together.
use unpv13e.Base.{
  ℕ, ◌%◌, ◌^◌, ◌≡◌, ◌↔◌, inl, inr, refl, sym, ap, ap₂, ◌∙◌, List, [], ◌∷◌, true, ◌==◌, take,
  replicate, pos, negsuc, arith, Bool-cases,
}
use unpv13e.Sock.{
  Sockaddr, sin, sin6, sun, other, memcmp, sock_cmp_addr, sock_cmp_port, sock_get_port,
  sock_set_addr, sock_set_port, sock_set_wild, of_bool,
}

memcmp_self : (a : List ℕ) → memcmp a a ≡ pos 0
memcmp_self [] = refl
memcmp_self (x ∷ a) = let same : (x == x) ≡ true = ground arith in rw same (memcmp_self a)

eq_of_memcmp : (a b : List ℕ) → memcmp a b ≡ pos 0 → a ≡ b
eq_of_memcmp [] [] h = refl
eq_of_memcmp [] (b ∷ bs) h = absurd (ground arith)
eq_of_memcmp (a ∷ as') [] h = absurd (ground arith)
eq_of_memcmp (a ∷ as') (b ∷ bs) h = elim (Bool-cases (a == b)) [
  | inl e ↦
      let same : a ≡ b = ground (arith, e) in
      let rest : memcmp as' bs ≡ pos 0 = ground (arith, h, e) in
      ap₂ (λ x y. x ∷ y) same (eq_of_memcmp as' bs rest)
  | inr e ↦ absurd (ground (arith, h, e))
]

-- Two structures of one of the three families with the same address.
abbrev pub SameAddr : Sockaddr → Sockaddr → Type 0
SameAddr (sin a p) (sin b q) = a ≡ b
SameAddr (sin6 a p) (sin6 b q) = a ≡ b
SameAddr (sun a) (sun b) = a ≡ b
SameAddr _ _ = ⊥

memcmp_iff : (a b : List ℕ) → (memcmp a b ≡ pos 0) ↔ (a ≡ b)
memcmp_iff a b = (eq_of_memcmp a b, λ e. ap (memcmp a) (sym e) ∙ memcmp_self a)

never : (negsuc 0 ≡ pos 0) ↔ ⊥
never = (λ h. ground (arith, h), λ h. absurd h)

-- `sock_cmp_addr` returns 0 exactly for two structures of one family, of the three, with the same
-- address, whatever their ports.
pub sock_cmp_addr_iff : (s t : Sockaddr) → (sock_cmp_addr s t ≡ pos 0) ↔ SameAddr s t
unfolding sock_cmp_addr
sock_cmp_addr_iff (sin a p) (sin b q) = memcmp_iff a b
sock_cmp_addr_iff (sin6 a p) (sin6 b q) = memcmp_iff a b
sock_cmp_addr_iff (sun a) (sun b) = memcmp_iff a b
sock_cmp_addr_iff (sin a p) (sin6 b q) = never
sock_cmp_addr_iff (sin a p) (sun b) = never
sock_cmp_addr_iff (sin a p) (other f) = never
sock_cmp_addr_iff (sin6 a p) (sin b q) = never
sock_cmp_addr_iff (sin6 a p) (sun b) = never
sock_cmp_addr_iff (sin6 a p) (other f) = never
sock_cmp_addr_iff (sun a) (sin b q) = never
sock_cmp_addr_iff (sun a) (sin6 b q) = never
sock_cmp_addr_iff (sun a) (other f) = never
sock_cmp_addr_iff (other f) (sin b q) = never
sock_cmp_addr_iff (other f) (sin6 b q) = never
sock_cmp_addr_iff (other f) (sun b) = never
sock_cmp_addr_iff (other f) (other g) = never

-- An IPv4 or an IPv6 structure.
abbrev pub IsInet : Sockaddr → Type 0
IsInet (sin a p) = Unit
IsInet (sin6 a p) = Unit
IsInet (sun a) = ⊥
IsInet (other f) = ⊥

-- For an IPv4 or IPv6 structure: the port that is set is the one that is got, in its low 16 bits, the
-- address is as before, and structures with the same port set compare as 1 by `sock_cmp_port`;
-- setting an address or the wildcard leaves the port as it is.
pub sock_set_port_lem :
    (s : Sockaddr) (port : ℕ) (addr : List ℕ)
    → IsInet s
    → (sock_get_port (sock_set_port s port) ≡ pos (port % 2 ^ 16))
      × (sock_cmp_addr (sock_set_port s port) s ≡ pos 0)
      × (sock_cmp_port (sock_set_port s port) (sock_set_port s port) ≡ pos 1)
      × (sock_get_port (sock_set_addr s addr) ≡ sock_get_port s)
      × (sock_get_port (sock_set_wild s) ≡ sock_get_port s)
unfolding sock_get_port sock_set_port sock_cmp_addr sock_cmp_port sock_set_addr sock_set_wild
sock_set_port_lem (sin a p) port addr h =
    let same : (port % 2 ^ 16 == port % 2 ^ 16) ≡ true = ground arith in
    (refl, memcmp_self a, rw same refl, refl, refl)
sock_set_port_lem (sin6 a p) port addr h =
    let same : (port % 2 ^ 16 == port % 2 ^ 16) ≡ true = ground arith in
    (refl, memcmp_self a, rw same refl, refl, refl)
sock_set_port_lem (sun a) port addr h = absurd h
sock_set_port_lem (other f) port addr h = absurd h

-- `sock_cmp_port` tells by 1, and not by 0 as `sock_cmp_addr` does, that the ports are the same: a
-- structure compares with itself as 1 by the one and as 0 by the other.
pub sock_cmp_port_self :
    (s : Sockaddr) → IsInet s → (sock_cmp_port s s ≡ pos 1) × (sock_cmp_addr s s ≡ pos 0)
unfolding sock_cmp_port sock_cmp_addr
sock_cmp_port_self (sin a p) h =
    let same : (p == p) ≡ true = ground arith in (rw same refl, memcmp_self a)
sock_cmp_port_self (sin6 a p) h =
    let same : (p == p) ≡ true = ground arith in (rw same refl, memcmp_self a)
sock_cmp_port_self (sun a) h = absurd h
sock_cmp_port_self (other f) h = absurd h

-- The structure `t` has the family of `s`, and the address that stands at `addr`: 4 or 16 bytes.
abbrev pub SetTo : List ℕ → Sockaddr → Sockaddr → Type 0
SetTo addr (sin a p) (sin b q) = take 4 addr ≡ b
SetTo addr (sin6 a p) (sin6 b q) = take 16 addr ≡ b
SetTo addr _ _ = ⊥

-- The structure `t` has the family of `s`, and the port.
abbrev pub HasPort : ℕ → Sockaddr → Sockaddr → Type 0
HasPort port (sin a p) (sin b q) = port ≡ q
HasPort port (sin6 a p) (sin6 b q) = port ≡ q
HasPort port _ _ = ⊥

sock_cmp_addr-sock_set_addr :
    (s t : Sockaddr) (addr : List ℕ)
    → IsInet s
    → (sock_cmp_addr (sock_set_addr s addr) t ≡ pos 0) ↔ SetTo addr s t
unfolding sock_cmp_addr sock_set_addr
sock_cmp_addr-sock_set_addr (sin a p) (sin b q) addr h = memcmp_iff (take 4 addr) b
sock_cmp_addr-sock_set_addr (sin a p) (sin6 b q) addr h = never
sock_cmp_addr-sock_set_addr (sin a p) (sun b) addr h = never
sock_cmp_addr-sock_set_addr (sin a p) (other f) addr h = never
sock_cmp_addr-sock_set_addr (sin6 a p) (sin b q) addr h = never
sock_cmp_addr-sock_set_addr (sin6 a p) (sin6 b q) addr h = memcmp_iff (take 16 addr) b
sock_cmp_addr-sock_set_addr (sin6 a p) (sun b) addr h = never
sock_cmp_addr-sock_set_addr (sin6 a p) (other f) addr h = never
sock_cmp_addr-sock_set_addr (sun a) t addr h = absurd h
sock_cmp_addr-sock_set_addr (other f) t addr h = absurd h

sock_set_wild_lem : (s : Sockaddr) → IsInet s → sock_set_wild s ≡ sock_set_addr s (replicate 16 0)
unfolding sock_set_wild sock_set_addr
sock_set_wild_lem (sin a p) h = refl
sock_set_wild_lem (sin6 a p) h = refl
sock_set_wild_lem (sun a) h = absurd h
sock_set_wild_lem (other f) h = absurd h

never_one : (negsuc 0 ≡ pos 1) ↔ ⊥
never_one = (λ h. ground (arith, h), λ h. absurd h)

of_bool_iff : (p q : ℕ) → (of_bool (p == q) ≡ pos 1) ↔ (p ≡ q)
of_bool_iff p q = (λ h. ground (arith, h), λ h. ground (arith, h))

sock_cmp_port-sock_set_port :
    (s t : Sockaddr) (port : ℕ)
    → IsInet s
    → (sock_cmp_port (sock_set_port s port) t ≡ pos 1) ↔ HasPort (port % 2 ^ 16) s t
unfolding sock_cmp_port sock_set_port
sock_cmp_port-sock_set_port (sin a p) (sin b q) port h = of_bool_iff (port % 2 ^ 16) q
sock_cmp_port-sock_set_port (sin a p) (sin6 b q) port h = never_one
sock_cmp_port-sock_set_port (sin a p) (sun b) port h = never_one
sock_cmp_port-sock_set_port (sin a p) (other f) port h = never_one
sock_cmp_port-sock_set_port (sin6 a p) (sin b q) port h = never_one
sock_cmp_port-sock_set_port (sin6 a p) (sin6 b q) port h = of_bool_iff (port % 2 ^ 16) q
sock_cmp_port-sock_set_port (sin6 a p) (sun b) port h = never_one
sock_cmp_port-sock_set_port (sin6 a p) (other f) port h = never_one
sock_cmp_port-sock_set_port (sun a) t port h = absurd h
sock_cmp_port-sock_set_port (other f) t port h = absurd h

-- An IPv4 or IPv6 structure `s` whose address is set compares as 0 by `sock_cmp_addr` exactly with the
-- structures of its family with the first 4 or 16 bytes given as their address, and one that is set
-- to the wildcard exactly with those whose address is all zeros; one whose port is set compares as 1
-- by `sock_cmp_port` exactly with the structures of its family with the low 16 bits of the port.
-- Setting the port leaves the address, and setting the address or the wildcard leaves the port.
pub sock_set_iff :
    (s t : Sockaddr) (addr : List ℕ) (port : ℕ)
    → IsInet s
    → ((sock_cmp_addr (sock_set_addr s addr) t ≡ pos 0) ↔ SetTo addr s t)
      × ((sock_cmp_addr (sock_set_wild s) t ≡ pos 0) ↔ SetTo (replicate 16 0) s t)
      × ((sock_cmp_port (sock_set_port s port) t ≡ pos 1) ↔ HasPort (port % 2 ^ 16) s t)
      × (sock_cmp_addr (sock_set_port s port) s ≡ pos 0)
      × (sock_get_port (sock_set_addr s addr) ≡ sock_get_port s)
      × (sock_get_port (sock_set_wild s) ≡ sock_get_port s)
sock_set_iff s t addr port h =
    let kept = sock_set_port_lem s port addr h in
    (
      sock_cmp_addr-sock_set_addr s t addr h,
      rw (sock_set_wild_lem s h) (sock_cmp_addr-sock_set_addr s t (replicate 16 0) h),
      sock_cmp_port-sock_set_port s t port h,
      kept.1,
      kept.3,
      kept.4,
    )
