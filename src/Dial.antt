-- ===== src/Dial.antt =====
-- lib/tcp_connect.c, lib/tcp_listen.c, lib/udp_connect.c, lib/udp_server.c and lib/udp_client.c: a
-- socket for the first structure from `getaddrinfo` that takes one.
pub mod Sockets
pub mod First
pub mod Opens
pub mod Laws
use unpv13e.Base.{ℕ, List, [], ◌∷◌, Bool, true, false, Option, none, some, if◌then◌else◌}
use unpv13e.Gai.Types.{Str, Addrinfo, Hints, World, af_unspec, sock_stream, sock_dgram}
use unpv13e.Gai.Serv.{System}
use unpv13e.Gai.Lookup.{Result, success, failure, err_quit, getaddrinfo}
use unpv13e.Dial.Sockets.{Kernel}

-- AI_PASSIVE
abbrev pub ai_passive : ℕ
ai_passive = 1

-- `bzero` of the hints, and what is set behind it.
abbrev pub hints_for : ℕ → ℕ → Hints
hints_for flags socktype = record {
  flags = flags;
  family = af_unspec;
  socktype = socktype;
  protocol = 0;
}

-- What one round of the `do` loop comes to: `break`, the next structure, or a wrapper's `err_sys`.
pub data Attempt (W : Type 0) : Type 0 where
  break : ℕ → W → Attempt W
  next : W → Attempt W
  fatal : W → Attempt W

-- Where the loop ends: a descriptor with its structure, `res == NULL`, or in a wrapper.
pub data Tried (W : Type 0) : Type 0 where
  found : ℕ → Addrinfo → W → Tried W
  exhausted : W → Tried W
  quit : W → Tried W

-- A descriptor with the structure that it is for (its size goes to `addrlenp`, its address is
-- what `udp_client` copies), or the end of the process.
pub data Dialled (W : Type 0) : Type 0 where
  returned : ℕ → Addrinfo → W → Dialled W
  lookup_error : ℕ → Dialled W
  lookup_ended : Dialled W
  err_sys : W → Dialled W

module _ {W : Type 0} where
  pub after_try : Addrinfo → (W → Tried W) → Attempt W → Tried W
  after_try ai rest (break fd w) = found fd ai w
  after_try ai rest (next w) = rest w
  after_try ai rest (fatal w) = quit w

  -- `getaddrinfo` never gives an empty list.
  unfoldable pub try_each : (Addrinfo → W → Attempt W) → List Addrinfo → W → Tried W
  unfolding after_try
  try_each attempt [] w = exhausted w
  try_each attempt (ai ∷ l) w = after_try ai (try_each attempt l) (attempt ai w)

  pub to_dialled : Tried W → Dialled W
  to_dialled (found fd ai w) = returned fd ai w
  to_dialled (exhausted w) = err_sys w
  to_dialled (quit w) = err_sys w

  pub with_list : (List Addrinfo → Dialled W) → Result → Dialled W
  with_list try_list (success l mem) = try_list l
  with_list try_list (failure e kept mem) = lookup_error e
  with_list try_list err_quit = lookup_ended

module _ {W : Type 0} (k : Kernel W) where
  -- `Close`, and on to the next.
  pub closed : Bool × W → Attempt W
  closed (true, w) = next w
  closed (false, w) = fatal w

  -- `connect` or `bind` on the new socket.
  pub connected : ℕ → Bool × W → Attempt W
  unfolding closed
  connected fd (true, w) = break fd w
  connected fd (false, w) = closed (k.close fd w)

  unfoldable pub connect_on : Addrinfo → Option ℕ × W → Attempt W
  unfolding connected
  connect_on ai (none, w) = next w
  connect_on ai (some fd, w) = connected fd (k.connect fd ai.addr ai.addrlen w)

  pub bind_on : Addrinfo → Option ℕ × W → Attempt W
  bind_on ai (none, w) = next w
  bind_on ai (some fd, w) = connected fd (k.bind fd ai.addr ai.addrlen w)

  -- `Setsockopt` of SO_REUSEADDR, in front of `bind`.
  pub reused : Addrinfo → ℕ → Bool × W → Attempt W
  reused ai fd (true, w) = connected fd (k.bind fd ai.addr ai.addrlen w)
  reused ai fd (false, w) = fatal w

  pub listen_on : Addrinfo → Option ℕ × W → Attempt W
  listen_on ai (none, w) = next w
  listen_on ai (some fd, w) = reused ai fd (k.reuseaddr fd w)

  pub socket_on : Option ℕ × W → Attempt W
  socket_on (none, w) = next w
  socket_on (some fd, w) = break fd w

  abbrev pub socket_for : Addrinfo → W → Option ℕ × W
  socket_for ai w = k.socket ai.family ai.socktype ai.protocol w

  abbrev pub try_connect : Addrinfo → W → Attempt W
  try_connect ai w = connect_on ai (socket_for ai w)

  abbrev pub try_bind : Addrinfo → W → Attempt W
  try_bind ai w = bind_on ai (socket_for ai w)

  abbrev pub try_listen : Addrinfo → W → Attempt W
  try_listen ai w = listen_on ai (socket_for ai w)

  abbrev pub try_socket : Addrinfo → W → Attempt W
  try_socket ai w = socket_on (socket_for ai w)

  -- `Listen` on the socket that was bound.
  pub listened : ℕ → Addrinfo → Bool × W → Dialled W
  listened fd ai (true, w) = returned fd ai w
  listened fd ai (false, w) = err_sys w

  pub listen_found : Tried W → Dialled W
  listen_found (found fd ai w) = listened fd ai (k.listen fd w)
  listen_found (exhausted w) = err_sys w
  listen_found (quit w) = err_sys w

  module _ (sys : System) (host serv : Option Str) (mem : World) (w : W) where
    unfoldable pub tcp_connect : Dialled W
    unfolding with_list
    tcp_connect =
        with_list (λ l. to_dialled (try_each try_connect l w))
          (getaddrinfo sys host serv (some (hints_for 0 sock_stream)) mem)

    unfoldable pub tcp_listen : Dialled W
    tcp_listen =
        with_list (λ l. listen_found (try_each try_listen l w))
          (getaddrinfo sys host serv (some (hints_for ai_passive sock_stream)) mem)

    unfoldable pub udp_connect : Dialled W
    udp_connect =
        with_list (λ l. to_dialled (try_each try_connect l w))
          (getaddrinfo sys host serv (some (hints_for 0 sock_dgram)) mem)

    unfoldable pub udp_server : Dialled W
    udp_server =
        with_list (λ l. to_dialled (try_each try_bind l w))
          (getaddrinfo sys host serv (some (hints_for ai_passive sock_dgram)) mem)

    unfoldable pub udp_client : Dialled W
    udp_client =
        with_list (λ l. to_dialled (try_each try_socket l w))
          (getaddrinfo sys host serv (some (hints_for 0 sock_dgram)) mem)
