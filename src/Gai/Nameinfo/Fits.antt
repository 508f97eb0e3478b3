-- ===== src/Gai/Nameinfo/Fits.antt =====
-- libgai/getnameinfo.c: the room for the two names.
use unpv13e.Base.{
  ℕ, ◌-◌, ◌<◌, ◌≡◌, ◌≢◌, Option, none, some, ◌==◌, arith, length, length-take, Bool-cases, inl, inr,
}
use unpv13e.Gai.Types.{Str, Sockaddr, sin, sin6, sun, af_inet, af_inet6}
use unpv13e.Gai.Nameinfo.{
  Resolver, wants_numerichost, needs_name, wants_numericserv, snprintf, decimal, cut_name, Named,
  named, failed, Host, stored, unnamed, to_host, from_addr, host_name, of_service, serv_name,
  stored_serv, with_host, gn_ipv46, stored_text, getnameinfo,
}

-- A string with its null fits into `n` bytes; nothing is stored where there are none.
abbrev pub Fits : ℕ → Option Str → Type 0
Fits n none = n ≡ 0
Fits n (some s) = length s < n

-- `inet_ntop` keeps to the room that it is given.
abbrev pub KeepsRoom : ℕ → Option Str → Type 0
KeepsRoom n none = Unit {0}
KeepsRoom n (some s) = length s < n

pub record IsResolver (res : Resolver) : Type 0 where
  pub room : (family : ℕ) (addr : Str) (n : ℕ) → KeepsRoom n (res.inet_ntop family addr n)

abbrev pub NamedFits : ℕ → ℕ → Named → Type 0
NamedFits hostlen servlen (named host serv) = Fits hostlen host × Fits servlen serv
NamedFits hostlen servlen failed = Unit {0}

abbrev HostFits : ℕ → Host → Type 0
HostFits n (stored s) = length s < n
HostFits n unnamed = Unit {0}

snprintf_fits : (n : ℕ) (s : Str) → n ≢ 0 → length (snprintf n s) < n
snprintf_fits n s h = omega (arith, length-take (n - 1) s, h)

stored_text-Fits : (res : Resolver) (n : ℕ) (s : Str) → Fits n (stored_text res n s)
stored_text-Fits res n s = elim (Bool-cases (n == 0)) [
  | inl e ↦ rw e (ground (arith, e))
  | inr e ↦ rw e (snprintf_fits n s (ground (arith, e)))
]

module _ (res : Resolver) (h : IsResolver res) where
  to_host-HostFits : (n : ℕ) (o : Option Str) → KeepsRoom n o → HostFits n (to_host o)
  to_host-HostFits n none k = tt
  to_host-HostFits n (some s) k = k

  from_addr-HostFits :
      (hostlen family : ℕ) (addr : Str) (flags : ℕ) (o : Option Str)
      → hostlen ≢ 0
      → HostFits hostlen (from_addr res hostlen family addr flags o)
  unfolding from_addr
  from_addr-HostFits hostlen family addr flags (some name) ne =
      snprintf_fits hostlen (cut_name flags name) ne
  from_addr-HostFits hostlen family addr flags none ne = elim (Bool-cases (needs_name flags)) [
    | inl e ↦ rw e tt
    | inr e ↦ rw e (to_host-HostFits hostlen _ (h.room family addr hostlen))
  ]

  host_name-HostFits :
      (hostlen family : ℕ) (addr : Str) (flags : ℕ)
      → hostlen ≢ 0
      → HostFits hostlen (host_name res hostlen family addr flags)
  unfolding host_name
  host_name-HostFits hostlen family addr flags ne = elim (Bool-cases (wants_numerichost flags)) [
    | inl e ↦ rw e (to_host-HostFits hostlen _ (h.room family addr hostlen))
    | inr e ↦ rw e (from_addr-HostFits hostlen family addr flags _ ne)
  ]

  of_service_fits :
      (servlen port : ℕ) (o : Option Str)
      → servlen ≢ 0
      → length (of_service res servlen port o) < servlen
  unfolding of_service
  of_service_fits servlen port (some name) ne = snprintf_fits servlen name ne
  of_service_fits servlen port none ne = snprintf_fits servlen (decimal (res.ntohs port)) ne

  serv_name_fits :
      (servlen port flags : ℕ) → servlen ≢ 0 → length (serv_name res servlen port flags) < servlen
  unfolding serv_name
  serv_name_fits servlen port flags ne = elim (Bool-cases (wants_numericserv flags)) [
    | inl e ↦ rw e (snprintf_fits servlen (decimal (res.ntohs port)) ne)
    | inr e ↦ rw e (of_service_fits servlen port _ ne)
  ]

  stored_serv-Fits : (servlen port flags : ℕ) → Fits servlen (stored_serv res servlen port flags)
  stored_serv-Fits servlen port flags = elim (Bool-cases (servlen == 0)) [
    | inl e ↦ rw e (ground (arith, e))
    | inr e ↦ rw e (serv_name_fits servlen port flags (ground (arith, e)))
  ]

  with_host-NamedFits :
      (hostlen servlen port flags : ℕ) (o : Host)
      → HostFits hostlen o
      → NamedFits hostlen servlen (with_host res servlen port flags o)
  unfolding with_host
  with_host-NamedFits hostlen servlen port flags (stored s) k =
      (k, stored_serv-Fits servlen port flags)
  with_host-NamedFits hostlen servlen port flags unnamed k = tt

  gn_ipv46-NamedFits :
      (hostlen servlen : ℕ) (addr : Str) (family port flags : ℕ)
      → NamedFits hostlen servlen (gn_ipv46 res hostlen servlen addr family port flags)
  unfolding gn_ipv46
  gn_ipv46-NamedFits hostlen servlen addr family port flags = elim (Bool-cases (hostlen == 0)) [
    | inl e ↦ rw e (ground (arith, e), stored_serv-Fits servlen port flags)
    | inr e ↦ rw e (
        with_host-NamedFits hostlen servlen port flags _
          (host_name-HostFits hostlen family addr flags (ground (arith, e))))
  ]

  -- With an `inet_ntop` that keeps to its room: where `getnameinfo` returns 0, the host and the service
  -- were stored, each with its null inside the room for it, and nothing was stored where there is no
  -- room.
  pub getnameinfo-NamedFits :
      (sa : Option Sockaddr) (hostlen servlen flags : ℕ)
      → NamedFits hostlen servlen (getnameinfo res sa hostlen servlen flags)
  unfolding getnameinfo
  getnameinfo-NamedFits none hostlen servlen flags = tt
  getnameinfo-NamedFits (some (sin a port)) hostlen servlen flags =
      gn_ipv46-NamedFits hostlen servlen a af_inet port flags
  getnameinfo-NamedFits (some (sin6 a port)) hostlen servlen flags =
      gn_ipv46-NamedFits hostlen servlen a af_inet6 port flags
  getnameinfo-NamedFits (some (sun path)) hostlen servlen flags =
      (stored_text-Fits res hostlen _, stored_text-Fits res servlen path)
