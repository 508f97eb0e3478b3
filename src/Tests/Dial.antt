-- ===== src/Tests/Dial.antt =====
-- The socket loops on a kernel that has no IPv6 and refuses the first connection.
use unpv13e.Base.{
  ℕ, ◌+◌, ◌≡◌, refl, ap, List, [], ◌∷◌, Bool, true, false, Option, none, some, ◌==◌, if◌then◌else◌,
  arith,
}
use unpv13e.Gai.Types.{af_inet6, sock_stream}
use unpv13e.Dial.Sockets.{Kernel, IsKernel, OpensOne}
use unpv13e.Dial.{connect_on, found, try_each, try_connect, tcp_connect, tcp_listen}
use unpv13e.Dial.Opens.{Opens}
use unpv13e.Dial.Laws.{tcp_connect-Opens, tcp_listen-Opens}
use unpv13e.Tests.Gai.{roomy, here, port_13, sys, one_host_ip, at4, at6}

-- The next descriptor, the open sockets, and the number of connections to refuse.
record Host : Type 0 where
  fd : ℕ
  open_fds : List (ℕ × ℕ)
  refuse : ℕ

abbrev add_socket : ℕ → Host → Host
add_socket socktype w = record w { fd = w.fd + 1; open_fds = (w.fd, socktype) ∷ w.open_fds }

abbrev socket_of : Bool → ℕ → Host → Option ℕ × Host
socket_of true socktype w = (none, w)
socket_of false socktype w = (some w.fd, add_socket socktype w)

abbrev remove : List (ℕ × ℕ) → List (ℕ × ℕ)
remove [] = []
remove (p ∷ s) = s

abbrev connects : Host → Bool × Host
connects w = if w.refuse == 0 then (true, w) else (false, record w { refuse = 0 })

abbrev small : Kernel Host
small = record {
  socket = λ family socktype protocol w. socket_of (family == af_inet6) socktype w;
  reuseaddr = λ fd w. (true, w);
  bind = λ fd a n w. (true, w);
  connect = λ fd a n w. connects w;
  listen = λ fd w. (true, w);
  close = λ fd w. (true, record w { open_fds = remove w.open_fds });
}

socket_of-OpensOne :
    (v6 : Bool) (socktype : ℕ) (w : Host)
    → OpensOne (λ w. w.open_fds) socktype w (socket_of v6 socktype w)
socket_of-OpensOne true socktype w = refl
socket_of-OpensOne false socktype w = refl

connects_keeps : (w : Host) → (connects w).1.open_fds ≡ w.open_fds
connects_keeps w = ground arith

small-IsKernel : IsKernel small
small-IsKernel = record {
  opened = λ w. w.open_fds;
  socket_one = λ family socktype protocol w. socket_of-OpensOne (family == af_inet6) socktype w;
  reuseaddr_keeps = λ fd w. refl;
  bind_keeps = λ fd a n w. refl;
  connect_keeps = λ fd a n w. connects_keeps w;
  listen_keeps = λ fd w. refl;
  close_one = λ fd w socktype s e. ap remove e;
}

abbrev start : Host
start = record { fd = 3; open_fds = []; refuse = 0 }

abbrev refusing : Host
refusing = record start { refuse = 1 }

-- The first is skipped, the second is refused and closed, and the third is connected.
third :
    (try_each (try_connect small) (at6 ∷ at4 ∷ at4 ∷ []) refusing)
    ≡ found 4 at4 (record { fd = 5; open_fds = (4, 0) ∷ []; refuse = 0 })
unfolding try_each connect_on
third = refl

tcp_connect-Opens_example :
    Opens small-IsKernel sock_stream
      (small-IsKernel.opened start)
      (tcp_connect small sys (some here) (some port_13) roomy start)
tcp_connect-Opens_example =
    tcp_connect-Opens small-IsKernel sys one_host_ip (some here) (some port_13) roomy start

tcp_listen-Opens_example :
    Opens small-IsKernel sock_stream
      (small-IsKernel.opened start)
      (tcp_listen small sys none (some port_13) roomy start)
tcp_listen-Opens_example =
    tcp_listen-Opens small-IsKernel sys one_host_ip none (some port_13) roomy start
