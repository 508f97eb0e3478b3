-- ===== src/Dial/Laws.antt =====
-- lib/tcp_connect.c and its kin: the five functions, with the list from `getaddrinfo`.
use unpv13e.Base.{ℕ, ◌≢◌, refl, Option, some, arith}
use unpv13e.Gai.Types.{Str, Addrinfo, World, sock_stream, sock_dgram}
use unpv13e.Gai.Serv.{System}
use unpv13e.Gai.Lookup.{getaddrinfo}
use unpv13e.Gai.Lookup.Hosts.{ResolvesInternet}
use unpv13e.Gai.Lookup.Laws.{getaddrinfo-Answers}
use unpv13e.Dial.Sockets.{Kernel, IsKernel}
use unpv13e.Dial.{
  ai_passive, Attempt, Tried, Dialled, try_each, to_dialled, with_list, try_connect, try_bind,
  try_listen, try_socket, listen_found, hints_for, tcp_connect, tcp_listen, udp_connect, udp_server,
  udp_client,
}
use unpv13e.Dial.Opens.{
  Tries, Finds, Opens, connect_on-Tries, bind_on-Tries, listen_on-Tries, socket_on-Tries, opens_one,
  try_each-Finds, to_dialled-Opens, listen_found-Opens, with_list-Opens,
}

module _ {W : Type 0} {k : Kernel W} (h : IsKernel k) (sys : System)
    (resolves : ResolvesInternet sys) where
  -- What is done with the list from `getaddrinfo`, for hints with flags and a socket type.
  dials :
      (flags socktype : ℕ) (finish : Tried W → Dialled W) (attempt : Addrinfo → W → Attempt W)
      (host serv : Option Str) (mem : World) (w : W)
      → socktype ≢ 0
      → ((ai : Addrinfo) (w : W) → Tries h ai.socktype (h.opened w) (attempt ai w))
      → ((t : Tried W) → Finds h socktype (h.opened w) t → Opens h socktype (h.opened w) (finish t))
      → Opens h socktype (h.opened w) (
          with_list
            (λ l. finish (try_each attempt l w))
            (getaddrinfo sys host serv (some (hints_for flags socktype)) mem))
  dials flags socktype finish attempt host serv mem w ne tries finds =
      with_list-Opens h (hints_for flags socktype) (h.opened w) _ _ ne
        (λ q. absurd (omega (arith, q)))
        (λ l t. finds _ (try_each-Finds h attempt socktype l (h.opened w) w tries t refl))
        (getaddrinfo-Answers sys resolves host serv (some (hints_for flags socktype)) mem)

  -- With a resolver of the Internet families and a kernel that opens and closes as it says: where
  -- `tcp_connect` returns a descriptor, that is a stream socket, newly opened, and no other socket is
  -- open that was not before; a lookup that fails does so with an error that is not 0, and the
  -- lookup never ends the process.
  pub tcp_connect-Opens :
      (host serv : Option Str) (mem : World) (w : W)
      → Opens h sock_stream (h.opened w) (tcp_connect k sys host serv mem w)
  unfolding tcp_connect
  tcp_connect-Opens host serv mem w =
      dials 0 sock_stream to_dialled (try_connect k) host serv mem w
        (λ q. absurd (omega (arith, q))) (λ ai w'. connect_on-Tries h ai w' _ (opens_one h ai w'))
        (to_dialled-Opens h sock_stream (h.opened w))

  -- With a resolver of the Internet families and a kernel that opens and closes as it says: where
  -- `tcp_listen` returns a descriptor, that is a stream socket, newly opened, and no other socket is
  -- open that was not before; a lookup that fails does so with an error that is not 0, and the
  -- lookup never ends the process.
  pub tcp_listen-Opens :
      (host serv : Option Str) (mem : World) (w : W)
      → Opens h sock_stream (h.opened w) (tcp_listen k sys host serv mem w)
  unfolding tcp_listen
  tcp_listen-Opens host serv mem w =
      dials ai_passive sock_stream (listen_found k) (try_listen k) host serv mem w
        (λ q. absurd (omega (arith, q))) (λ ai w'. listen_on-Tries h ai w' _ (opens_one h ai w'))
        (listen_found-Opens h sock_stream (h.opened w))

  -- Under the same conditions the same holds of `udp_connect`, `udp_server` and `udp_client`, with
  -- datagram sockets.
  pub udp-Opens :
      (host serv : Option Str) (mem : World) (w : W)
      → Opens h sock_dgram (h.opened w) (udp_connect k sys host serv mem w)
        × Opens h sock_dgram (h.opened w) (udp_server k sys host serv mem w)
        × Opens h sock_dgram (h.opened w) (udp_client k sys host serv mem w)
  unfolding udp_connect udp_server udp_client
  udp-Opens host serv mem w = (
    dials 0 sock_dgram to_dialled (try_connect k) host serv mem w (λ q. absurd (omega (arith, q)))
        (λ ai w'. connect_on-Tries h ai w' _ (opens_one h ai w'))
        (to_dialled-Opens h sock_dgram (h.opened w)),
    dials ai_passive sock_dgram to_dialled (try_bind k) host serv mem w
        (λ q. absurd (omega (arith, q))) (λ ai w'. bind_on-Tries h ai w' _ (opens_one h ai w'))
        (to_dialled-Opens h sock_dgram (h.opened w)),
    dials 0 sock_dgram to_dialled (try_socket k) host serv mem w (λ q. absurd (omega (arith, q)))
        (λ ai w'. socket_on-Tries h ai.socktype w' _ (opens_one h ai w'))
        (to_dialled-Opens h sock_dgram (h.opened w)),
  )
