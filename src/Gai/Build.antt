-- ===== src/Gai/Build.antt =====
-- libgai/ga_aistruct.c, libgai/ga_clone.c and libgai/ga_port.c: making the structures and filling in
-- the ports.
pub mod Structs
pub mod Exact
pub mod Ports
use unpv13e.Base.{
  ℕ, zero, suc, ◌+◌, List, [], ◌∷◌, ◌++◌, Bool, true, false, not, ◌&&◌, ◌||◌, Option, none, some,
  ◌==◌, leb, if◌then◌else◌, length, take,
}
use unpv13e.Gai.Types.{
  Str, Sockaddr, sin, sin6, sun, Addrinfo, Hints, World, alloc, af_local, af_inet, af_inet6,
  ai_clone, has_passive, has_clone, eai_memory, eai_service, sun_path_size, sockaddr_in_size,
  sockaddr_in6_size, sockaddr_un_size,
}

-- What is filled in before the family is looked at. `calloc` has cleared the rest.
abbrev pub blank_ai : Hints → ℕ → Addrinfo
blank_ai h family = record {
  flags = if h.socktype == 0 then ai_clone else 0;
  family = family;
  socktype = h.socktype;
  protocol = h.protocol;
  addrlen = 0;
  canonname = none;
  addr = none;
}

-- The socket address for a family: with its size, an error, or nothing for another family.
pub data Made : Type 0 where
  made : Sockaddr → ℕ → Made
  refused : ℕ → Made
  nothing : Made

abbrev pub of_alloc : Bool → Sockaddr → ℕ → Made
of_alloc ok a n = if ok then made a n else refused eai_memory

-- The `switch` on the family; a name for the Unix domain must fit with its null.
pub make_addr : Str → ℕ → World → Made × World
make_addr addr family w =
    let (ok, w') = alloc w in
    if family == af_inet
    then (of_alloc ok (sin (take 4 addr) 0) sockaddr_in_size, w')
    else if family == af_inet6
    then (of_alloc ok (sin6 (take 16 addr) 0) sockaddr_in6_size, w')
    else if family == af_local
    then (if leb sun_path_size (length addr)
        then (refused eai_service, w)
        else (of_alloc ok (sun addr) sockaddr_un_size, w'))
    else (nothing, w)

-- `unlink` of the name for a socket that is to be bound.
abbrev pub unlinks : Hints → ℕ → Str → World → World
unlinks h family addr w =
    if family == af_local && has_passive h.flags
    then record w { unlinked = addr ∷ w.unlinked }
    else w

pub finish : Hints → Str → ℕ → List Addrinfo → Made × World → ℕ × List Addrinfo × World
finish h addr family l (made a n, w) = (
  0,
  l ++ record (blank_ai h family) { addr = some a; addrlen = n } ∷ [],
  unlinks h family addr w,
)
finish h addr family l (refused e, w) = (e, l ++ blank_ai h family ∷ [], w)
finish h addr family l (nothing, w) = (0, l ++ blank_ai h family ∷ [], w)

-- The list is what hangs on `aihead`; `aipnext` points to its end. The value is 0 or an error.
unfoldable pub ga_aistruct : Hints → Str → ℕ → List Addrinfo → World → ℕ × List Addrinfo × World
unfolding make_addr finish
ga_aistruct h addr family l w =
    let (ok, w') = alloc w in
    if ok then finish h addr family l (make_addr addr family w') else (eai_memory, l, w')

-- `ga_clone`: no structure, one without an address (linked in, but NULL is returned), or a copy.
pub data Clone : Type 0 where
  no_memory : Clone
  half : Addrinfo → Clone
  whole : Addrinfo → Clone

pub ga_clone : Addrinfo → World → Clone × World
ga_clone ai w =
    let (ok, w') = alloc w in
    let (ok', w'') = alloc w' in
    let new : Addrinfo = record ai { flags = 0; canonname = none; addr = none } in
    if ok
    then (if ok' then (whole (record new { addr = ai.addr }), w'') else (half new, w''))
    else (no_memory, w')

abbrev pub put_port : ℕ → Option Sockaddr → Option Sockaddr
put_port port none = none
put_port port (some (sin a p)) = some (sin a port)
put_port port (some (sin6 a p)) = some (sin6 a port)
put_port port (some (sun a)) = some (sun a)

abbrev pub is_ip : ℕ → Bool
is_ip family = family == af_inet || family == af_inet6

-- The socket type is set, and the port where the family has one.
abbrev pub set_port : ℕ → ℕ → Addrinfo → Addrinfo
set_port port socktype ai = record ai {
  socktype = socktype;
  addr = if is_ip ai.family then put_port port ai.addr else ai.addr;
}

-- What a pass over the list comes to: the number of ports set, or `none` for -1, and the list.
abbrev pub Pass : Type 0
Pass = Option ℕ × List Addrinfo × World

-- A structure that is done, in front of the rest of the pass.
pub after : List Addrinfo → ℕ → Pass → Pass
after front n (none, l, w) = (none, front ++ l, w)
after front n (some k, l, w) = (some (n + k), front ++ l, w)

abbrev pub counted : Addrinfo → ℕ
counted ai = if is_ip ai.family then 1 else 0

-- What the pass does with a clone; `next` goes on with the structures `l` behind it.
pub with_clone : (World → Pass) → ℕ → ℕ → Addrinfo → List Addrinfo → Clone × World → Pass
with_clone next port socktype ai l (no_memory, w) = (none, ai ∷ l, w)
with_clone next port socktype ai l (half new, w) = (none, ai ∷ new ∷ l, w)
with_clone next port socktype ai l (whole new, w) =
    after (ai ∷ set_port port socktype new ∷ []) (counted new) (next w)

unfoldable pub ga_port : ℕ → ℕ → List Addrinfo → World → Pass
unfolding after with_clone ga_clone
ga_port port socktype [] w = (some 0, [], w)
ga_port port socktype (ai ∷ l) w =
    let cloned = with_clone (ga_port port socktype l) port socktype ai l (ga_clone ai w) in
    let filled = after (set_port port socktype ai ∷ []) (counted ai) (ga_port port socktype l w) in
    let skipped = after (ai ∷ []) 0 (ga_port port socktype l w) in
    if has_clone ai.flags
    then (if ai.socktype == 0 then filled else cloned)
    else if ai.socktype == socktype
    then filled
    else skipped
