-- ===== src/Lib.antt =====
-- The library and the example programs of "UNIX Network Programming": C functions for sockets, and
-- programs that use them. This development models the parts that have a logic of their own.
--
-- The parts and the files
--   Io: reading and writing on descriptors. Io/Readn and Io/Writen are lib/readn.c and lib/writen.c,
--   Io/Echo is lib/str_echo.c, with the two directions of the socket as two states;
--   Io/Readline is lib/readline.c, with its static buffer as the record Rline, and
--   Io/Readline/Threads is threads/readline.c, a buffer for each thread. What read(2) and write(2)
--   answer is a parameter; Io/System says what is relied on of a stream and of a sink.
--   Nonblock: nonblock/strclinonb.c. Nonblock/Buffer is one of the two buffers with its two pointers as
--   offsets, Nonblock/Client the body of str_cli: a round is one pass of its loop, and the answers
--   of select, read and write of a round are given with it. Nonblock/Connect is lib/connect_nonb.c.
--   Rtt: lib/rtt.c on top of the operations on floating point that it uses (Rtt/Float), and
--   Rtt/Exchange, rtt/dg_send_recv.c: datagrams and alarms are a list of events.
--   Server/Prefork: the loop of the parent in server/serv05.c with the table of server/child.h.
--   Server/Select: the echo server of tcpcliserv/tcpservselect01.c; a free entry of client[] is none.
--   Gai: libgai. Gai/Search is ga_echeck.c and ga_nsearch.c, Gai/Build ga_aistruct.c, ga_clone.c and
--   ga_port.c, Gai/Serv ga_serv.c, Gai/Lookup getaddrinfo.c and ga_unix.c, and Gai/Nameinfo
--   getnameinfo.c and gn_ipv46.c. A chain of addrinfo structures is a list. The resolver, the services
--   database, htons and uname are the record System (Resolver for Gai/Nameinfo); the outcomes of
--   the allocations to come are in the record World.
--   Cksum: libfree/in_cksum.c, for a host whose first byte of a word is the low one.
--   Dial: lib/tcp_connect.c, lib/tcp_listen.c, lib/udp_connect.c, lib/udp_server.c, lib/udp_client.c,
--   which take the list from getaddrinfo, so from Gai, and try its structures on a kernel
--   (Dial/Sockets).
--   Sock: lib/sock_cmp_addr.c, lib/sock_cmp_port.c, lib/sock_get_port.c, lib/sock_set_addr.c,
--   lib/sock_set_port.c and lib/sock_set_wild.c, on structures told apart by their family.
--   Trace: traceroute/recv_v4.c and traceroute/recv_v6.c (Trace/V6), over a list of what recvfrom
--   comes to; a packet is the list of its bytes, and a read behind its end is a verdict of its own.
--   Uno: tcpcliserv/final_server.c, a server of several threads with rooms for a card game. The game
--   is GameStart and what it calls: Uno/Cards, Uno/Shuffle, Uno/Turn (SwitchToNextPlayer), Uno/Game (the
--   variables as the record Game, and the lines that are sent), Uno/Draw (GiveCardToPlayer), Uno/Deal
--   (up to the first round), Uno/Play and Uno/Race (the lines of the players), and Uno/Rounds (its
--   loop). Uno/Seated is what is kept of the seats. Uno/Server is the shared state, Uno/Rooms is
--   GetInRoom and Uno/Process is RoomProcess, each as the operations that are done under a lock, and
--   Uno/Lobby is main. Uno/Rooms/Steps has the operations of all threads as steps, in any order.
--   A count, a seat or a connection of -1 is none; an array is a function on its index, and what C
--   leaves undefined (a null or an index of -1 that is used) is the result none, but for what is said
--   of it below. What rand() answers is a parameter.
--   Base: the names, tests, lists, integers and words that the parts share. Tests: runs at concrete
--   inputs, and each theorem at an input that meets its conditions.
--
-- Numbers, bounds and fuel
--   Numbers are natural numbers, and integers where the C value can be negative. Conversions between
--   size_t and ssize_t and the 32-bit and 16-bit wrap-around are written out. A loop on a
--   descriptor runs on fuel, and its theorem says how much is enough: more than the bytes asked for
--   and the interrupts to come. All other loops are structural: the
--   ten rounds for the seats of a table are enough, and so is the stack itself for turning up a card.
--   The search of Uno/Rooms for any room has a number of passes, and what it needs is proved.
--
-- What is not modelled
--   The kernel, the resolver and floating point are parameters with named hypotheses. Signals other
--   than the alarm of dg_send_recv, the race between alarm and sigsetjmp there, debugging output, the
--   waiting of the game server's threads for work and a read error on its connections,
--   freeing of memory and command lines are left out, as are the programs that only print or pass on
--   what the kernel says. The wrappers that end the process on an error are taken to succeed in
--   Server and Uno, and the descriptors of Server/Select to be below FD_SETSIZE, as FD_SET wants. A line
--   for a seat with no connection (conns[used[i]] with used[i] at -1, in GiveCardToPlayer and, for
--   the name of the player whose turn it is, in StartRound) is sent to nobody, and such a name is not
--   looked up. In Uno/Process the test of room_working behind a
--   leave is part of the step that frees the room, so what another thread does between the two is
--   left out.
pub mod Base
pub mod Cksum
pub mod Dial
pub mod Gai
pub mod Io
pub mod Nonblock
pub mod Rtt
pub mod Server
pub mod Sock
pub mod Tests
pub mod Trace
pub mod Uno
