-- ===== src/Tests/Nameinfo.antt =====
-- getnameinfo at an address whose host has a name, with little room for it.
use unpv13e.Base.{
  ℕ, ◌≡◌, refl, [], ◌∷◌, Option, none, some, ltb, length, if◌then◌else◌, arith, Bool-cases, inl,
  inr,
}
use unpv13e.Gai.Types.{Str, sin}
use unpv13e.Gai.Nameinfo.{Resolver, named, getnameinfo, decimal}
use unpv13e.Gai.Nameinfo.Fits.{IsResolver, KeepsRoom, NamedFits, getnameinfo-NamedFits}

abbrev dotted : Str
dotted = b'1' ∷ b'.' ∷ b'2' ∷ []

abbrev as_text : ℕ → Option Str
as_text n = if ltb (length dotted) n then some dotted else none

abbrev res : Resolver
res = record {
  inet_ntop = λ family addr n. as_text n;
  gethostbyaddr = λ addr family. some (b'h' ∷ b'o' ∷ b'.' ∷ b'd' ∷ []);
  getservbyport = λ port udp. none;
  ntohs = λ n. n;
}

as_text-KeepsRoom : (n : ℕ) → KeepsRoom n (as_text n)
as_text-KeepsRoom n = elim (Bool-cases (ltb 3 n)) [
  | inl e ↦ rw e (ground (arith, e))
  | inr e ↦ rw e tt
]

res-IsResolver : IsResolver res
res-IsResolver = record { room = λ family addr n. as_text-KeepsRoom n }

-- NI_NOFQDN
short_name :
    getnameinfo res (some (sin (1 ∷ 2 ∷ []) 8080)) 10 4 1
    ≡ named (some (b'h' ∷ b'o' ∷ [])) (some (b'8' ∷ b'0' ∷ b'8' ∷ []))
unfolding getnameinfo decimal
short_name = refl

getnameinfo-NamedFits_example :
    NamedFits 10 4 (getnameinfo res (some (sin (1 ∷ 2 ∷ []) 8080)) 10 4 1)
getnameinfo-NamedFits_example =
    getnameinfo-NamedFits res res-IsResolver (some (sin (1 ∷ 2 ∷ []) 8080)) 10 4 1
