-- ===== src/Nonblock/Client.antt =====
-- One round of the loop of `str_cli`, in the order of the source: `Select`, a read on each side,
-- a write on each side.
pub mod Parts
pub mod Laws
pub mod Runs
use unpv13e.Base.{
  ℕ, zero, suc, ◌+◌, ◌-◌, ◌≤◌, ◌<◌, ◌≡◌, List, [], ◌∷◌, ◌++◌, Bool, true, false, not, ◌&&◌, ◌||◌,
  ltb, ◌==◌, if◌then◌else◌, length, take,
}
use unpv13e.Io.System.{Errno, ewouldblock, Reply, got, failed, WriteReply, wrote, write_failed}
use unpv13e.Nonblock.Buffer.{Buffer, maxline, fresh, put, sent, window, is_drained}

-- What passed between the client and the kernel.
pub data Effect : Type 0 where
  from_stdin to_sock from_sock to_stdout : List ℕ → Effect
  shut_wr : Effect

-- The effects so far, the newest first.
abbrev pub Trace : Type 0
Trace = List Effect

pub record State : Type 0 where
  pub stdineof : Bool
  pub to : Buffer
  pub fr : Buffer

abbrev pub initial : State
initial = record { stdineof = false; to = fresh; fr = fresh }

-- What the kernel answers in a round: the descriptors that `Select` leaves in `rset` and `wset`,
-- and what a call on each gives if it is made.
pub record Round : Type 0 where
  pub stdin_readable : Bool
  pub sock_readable : Bool
  pub sock_writable : Bool
  pub stdout_writable : Bool
  pub stdin_reply : Reply
  pub sock_reply : Reply
  pub stdout_reply : WriteReply
  pub sock_write_reply : WriteReply

pub data Ending : Type 0 where
  normal terminated_prematurely err_sys : Ending

-- `go s wsock wout t`: the rest of the round runs, with `sockfd` and `STDOUT_FILENO` in `wset` or not.
pub data Phase : Type 0 where
  go : State → Bool → Bool → Trace → Phase
  exit : Ending → Trace → Phase

-- The bits that are set for `Select`.
unfoldable pub wants_stdin : State → Bool
wants_stdin s = not s.stdineof && ltb s.to.iptr maxline

unfoldable pub wants_sock : State → Bool
wants_sock s = ltb s.fr.iptr maxline

pub wants_sock_write : State → Bool
wants_sock_write s = not (is_drained s.to)

pub wants_stdout : State → Bool
wants_stdout s = not (is_drained s.fr)

-- `if (FD_ISSET(STDIN_FILENO, &rset))`
pub read_stdin : Reply → State → Bool → Bool → Trace → Phase
read_stdin (failed ewouldblock) s wsock wout t = go s wsock wout t
read_stdin (failed e) s wsock wout t = exit err_sys t
read_stdin (got []) s wsock wout t =
    go (record s { stdineof = true }) wsock wout (if is_drained s.to then shut_wr ∷ t else t)
read_stdin (got (b ∷ bs)) s wsock wout t =
    go (record s { to = put s.to (b ∷ bs) }) true wout (from_stdin (b ∷ bs) ∷ t)

-- `if (FD_ISSET(sockfd, &rset))`
pub read_sock : Reply → State → Bool → Bool → Trace → Phase
read_sock (failed ewouldblock) s wsock wout t = go s wsock wout t
read_sock (failed e) s wsock wout t = exit err_sys t
read_sock (got []) s wsock wout t = exit (if s.stdineof then normal else terminated_prematurely) t
read_sock (got (b ∷ bs)) s wsock wout t =
    go (record s { fr = put s.fr (b ∷ bs) }) wsock true (from_sock (b ∷ bs) ∷ t)

-- The write to `stdout`, where there are bytes for it.
pub write_stdout : WriteReply → State → Bool → Bool → Trace → Phase
write_stdout (write_failed ewouldblock) s wsock wout t = go s wsock wout t
write_stdout (write_failed e) s wsock wout t = exit err_sys t
write_stdout (wrote k) s wsock wout t =
    go (record s { fr = sent s.fr k }) wsock wout (to_stdout (take k (window s.fr)) ∷ t)

-- The write to the socket, where there are bytes for it.
pub write_sock : WriteReply → State → Bool → Bool → Trace → Phase
write_sock (write_failed ewouldblock) s wsock wout t = go s wsock wout t
write_sock (write_failed e) s wsock wout t = exit err_sys t
write_sock (wrote k) s wsock wout t =
    let t' = to_sock (take k (window s.to)) ∷ t in
    go (record s { to = sent s.to k }) wsock wout
      (if s.to.optr + k == s.to.iptr && s.stdineof then shut_wr ∷ t' else t')

-- The four parts, each behind its test; a part is passed over when the function has returned.
pub on_stdin : Round → Phase → Phase
on_stdin r (exit e t) = exit e t
on_stdin r (go s wsock wout t) =
    if r.stdin_readable then read_stdin r.stdin_reply s wsock wout t else go s wsock wout t

pub on_sock : Round → Phase → Phase
on_sock r (exit e t) = exit e t
on_sock r (go s wsock wout t) =
    if r.sock_readable then read_sock r.sock_reply s wsock wout t else go s wsock wout t

pub on_stdout : Round → Phase → Phase
on_stdout r (exit e t) = exit e t
on_stdout r (go s wsock wout t) =
    if wout && ltb s.fr.optr s.fr.iptr
    then write_stdout r.stdout_reply s wsock wout t
    else go s wsock wout t

pub on_sock_write : Round → Phase → Phase
on_sock_write r (exit e t) = exit e t
on_sock_write r (go s wsock wout t) =
    if wsock && ltb s.to.optr s.to.iptr
    then write_sock r.sock_write_reply s wsock wout t
    else go s wsock wout t

unfoldable pub round : Round → State → Trace → Phase
unfolding on_stdin on_sock on_stdout on_sock_write read_stdin read_sock write_stdout write_sock
round r s t =
    on_sock_write r
      (on_stdout r (on_sock r (on_stdin r (go s r.sock_writable r.stdout_writable t))))

-- The next round, unless the function has returned.
pub next_round : (State → Trace → Phase) → Phase → Phase
next_round again (go s wsock wout t) = again s t
next_round again (exit e t) = exit e t

-- `for ( ; ; )`, as long as the kernel has answers.
unfoldable pub str_cli : List Round → State → Trace → Phase
unfolding next_round
str_cli [] s t = go s false false t
str_cli (r ∷ rs) s t = next_round (str_cli rs) (round r s t)
