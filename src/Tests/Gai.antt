-- ===== src/Tests/Gai.antt =====
-- libgai at concrete inputs: a resolver that knows one host with an address of each family, and a
-- database with one service.
use unpv13e.Base.{
  ℕ, ◌+◌, ◌*◌, ◌/◌, ◌%◌, ◌≡◌, ◌↔◌, refl, [], ◌∷◌, Bool, Option, none, some, ◌==◌, arith,
  if◌then◌else◌,
}
use unpv13e.Gai.Types.{
  Str, sin, sin6, Sockaddr, Addrinfo, Hints, World, af_unspec, af_local, af_inet, af_inet6,
  sock_stream, sock_dgram, ai_clone,
}
use unpv13e.Gai.Search.{ga_echeck, ga_nsearch}
use unpv13e.Gai.Search.Laws.{Accepted, ga_echeck_iff}
use unpv13e.Gai.Build.{ga_port, ga_aistruct}
use unpv13e.Gai.Build.Structs.{IsMade}
use unpv13e.Gai.Build.Exact.{Builds, ga_aistruct-Builds}
use unpv13e.Gai.Build.Ports.{in_pairs}
use unpv13e.Gai.Serv.{System, Proto, host, Hostent, ga_serv}
use unpv13e.Gai.Serv.Laws.{ServedAs, ga_serv-Answers, ga_serv-pairs}
use unpv13e.Gai.Lookup.{getaddrinfo, success}
use unpv13e.Gai.Lookup.Hosts.{Answers, ResolvesInternet}
use unpv13e.Gai.Lookup.Laws.{getaddrinfo-Answers}

abbrev pub roomy : World
roomy = record { answers = []; unlinked = [] }

abbrev pub here : Str
here = b'h' ∷ b'e' ∷ b'r' ∷ b'e' ∷ []

abbrev echo : Str
echo = b'e' ∷ b'c' ∷ b'h' ∷ b'o' ∷ []

abbrev no_such : Str
no_such = b'n' ∷ b'o' ∷ []

abbrev pub port_13 : Str
port_13 = b'1' ∷ b'3' ∷ []

abbrev ip4 : Str
ip4 = 10 ∷ 0 ∷ 0 ∷ 1 ∷ []

abbrev ip6 : Str
ip6 = 32 ∷ 1 ∷ 0 ∷ 0 ∷ 0 ∷ 0 ∷ 0 ∷ 0 ∷ 0 ∷ 0 ∷ 0 ∷ 0 ∷ 0 ∷ 0 ∷ 0 ∷ 1 ∷ []

-- A name that begins as "echo" does, for both protocols.
abbrev services : Str → Proto → Option ℕ
services [] p = none
services (c ∷ s) p = if c == b'e' then some 1792 else none

abbrev one_host : Bool → Hostent
one_host v6 = if v6 then host here af_inet6 (ip6 ∷ []) else host here af_inet (ip4 ∷ [])

abbrev pub sys : System
sys = record {
  htons = λ n. n % 256 * 256 + n / 256 % 256;
  getservbyname = services;
  inet_pton4 = λ s. none;
  inet_pton6 = λ s. none;
  gethostbyname2 = λ s family. one_host (family == af_inet6);
  gethostbyname = λ v6 s. one_host v6;
  nodename = some here;
}

pub one_host_ip : ResolvesInternet sys
one_host_ip = record { by2 = λ s family. ground arith; by1 = λ v s. ground arith }

abbrev pub no_hints : Hints
no_hints = record { flags = 0; family = af_unspec; socktype = 0; protocol = 0 }

abbrev local_hints : Hints
local_hints = record { flags = 0; family = af_local; socktype = sock_stream; protocol = 0 }

abbrev found : Sockaddr → ℕ → ℕ → Addrinfo
found a n family = record {
  flags = ai_clone;
  family = family;
  socktype = 0;
  protocol = 0;
  addrlen = n;
  canonname = none;
  addr = some a;
}

abbrev pub at4 : Addrinfo
at4 = found (sin ip4 0) 16 af_inet

abbrev pub at6 : Addrinfo
at6 = found (sin6 ip6 0) 28 af_inet6

-- A host by name with a port number: IPv6 first, and for each address a stream and a copy.
four_structures :
    getaddrinfo sys (some here) (some port_13) none roomy
    ≡ success (in_pairs 3328 3328 (at6 ∷ at4 ∷ [])) roomy
unfolding getaddrinfo ga_echeck ga_nsearch ga_serv ga_aistruct ga_port
four_structures = refl

ga_echeck_iff_example :
    (ga_echeck (some here) none 2 af_inet sock_dgram 0 ≡ 0)
    ↔ Accepted (some here) none 2 af_inet sock_dgram
ga_echeck_iff_example = ga_echeck_iff (some here) none 2 af_inet sock_dgram 0

accepted_local :
    ga_echeck
      (some here)
      (some echo)
      local_hints.flags
      local_hints.family
      local_hints.socktype
      local_hints.protocol
    ≡ 0
unfolding ga_echeck
accepted_local = refl

ga_aistruct-Builds_example :
    Builds local_hints here af_local [] roomy (ga_aistruct local_hints here af_local [] roomy)
ga_aistruct-Builds_example = ga_aistruct-Builds local_hints here af_local [] roomy refl

ga_serv-Answers_example :
    ServedAs IsMade no_hints 2 (ga_serv sys (at6 ∷ at4 ∷ []) no_hints echo roomy)
ga_serv-Answers_example =
    ga_serv-Answers sys (at6 ∷ at4 ∷ []) no_hints echo roomy (refl, (refl, tt))

ga_serv-pairs_example :
    ga_serv sys (at6 ∷ at4 ∷ []) no_hints port_13 roomy
    ≡ (0, in_pairs 3328 3328 (at6 ∷ at4 ∷ []), roomy)
unfolding ga_serv
ga_serv-pairs_example =
    ga_serv-pairs sys at6 (at4 ∷ []) no_hints port_13 roomy
      ((refl, refl, refl), ((refl, refl, refl), tt)) refl refl refl

getaddrinfo-Answers_example :
    Answers no_hints (getaddrinfo sys (some here) (some port_13) (some no_hints) roomy)
getaddrinfo-Answers_example =
    getaddrinfo-Answers sys one_host_ip (some here) (some port_13) (some no_hints) roomy
