-- ===== src/Nonblock/Client/Laws.antt =====
-- nonblock/strclinonb.c: the four parts of a round together.
use unpv13e.Base.{
  ℕ, ◌-◌, ◌≡◌, refl, subst, [], ◌∷◌, Bool, true, ◌&&◌, ltb, arith, Bool-cases, inl, inr,
}
use unpv13e.Io.System.{eintr, ewouldblock, econnreset, other_errno, Reply, got, failed}
use unpv13e.Nonblock.Buffer.{maxline}
use unpv13e.Nonblock.Client.{
  Trace, State, Round, Phase, go, exit, wants_stdin, wants_sock, read_stdin, on_stdin, on_sock,
  on_stdout, on_sock_write, round,
}
use unpv13e.Nonblock.Client.Parts.{
  Sound, Keeps, ReplyFits, WriteFits, read_stdin-Keeps, read_sock-Keeps, write_stdout-Keeps,
  write_sock-Keeps,
}

-- What the kernel may answer in a round that begins in `s`: `Select` leaves only bits that were
-- set, and no call transfers more than it was asked to.
abbrev pub StdoutFits : Round → Phase → Type 0
StdoutFits r (go s wsock wout t) = WriteFits r.stdout_reply (s.fr.iptr - s.fr.optr)
StdoutFits r (exit e t) = Unit {0}

abbrev pub SockFits : Round → Phase → Type 0
SockFits r (go s wsock wout t) = WriteFits r.sock_write_reply (s.to.iptr - s.to.optr)
SockFits r (exit e t) = Unit {0}

pub record Answers (r : Round) (s : State) (t : Trace) : Type 0 where
  pub stdin_wanted : r.stdin_readable ≡ true → wants_stdin s ≡ true
  pub sock_wanted : r.sock_readable ≡ true → wants_sock s ≡ true
  pub stdin_fits : ReplyFits r.stdin_reply (maxline - s.to.iptr)
  pub sock_fits : ReplyFits r.sock_reply (maxline - s.fr.iptr)
  pub stdout_fits : StdoutFits r (on_sock r (on_stdin r (go s r.sock_writable r.stdout_writable t)))
  pub sock_write_fits :
      SockFits r (on_stdout r (on_sock r (on_stdin r (go s r.sock_writable r.stdout_writable t))))

on_stdin-Keeps :
    (r : Round) (s : State) (wsock wout : Bool) (t : Trace)
    → Sound s t
    → (r.stdin_readable ≡ true → wants_stdin s ≡ true)
    → ReplyFits r.stdin_reply (maxline - s.to.iptr)
    → Keeps (on_stdin r (go s wsock wout t))
unfolding on_stdin wants_stdin
on_stdin-Keeps r s wsock wout t v w f = elim (Bool-cases r.stdin_readable) [
  | inl e ↦ rw e (read_stdin-Keeps r.stdin_reply s wsock wout t v (ground (arith, w e)) f)
  | inr e ↦ rw e v
]

-- A read of the standard input leaves the buffer of the other way alone.
abbrev Room : ℕ → Phase → Type 0
Room n (go s wsock wout t) = n ≡ maxline - s.fr.iptr
Room n (exit e t) = Unit {0}

read_stdin-Room :
    (r : Reply) (s : State) (wsock wout : Bool) (t : Trace)
    → Room (maxline - s.fr.iptr) (read_stdin r s wsock wout t)
unfolding read_stdin
read_stdin-Room (failed ewouldblock) s wsock wout t = refl
read_stdin-Room (failed eintr) s wsock wout t = tt
read_stdin-Room (failed econnreset) s wsock wout t = tt
read_stdin-Room (failed (other_errno k)) s wsock wout t = tt
read_stdin-Room (got []) s wsock wout t = refl
read_stdin-Room (got (b ∷ bs)) s wsock wout t = refl

on_stdin-Room :
    (r : Round) (s : State) (wsock wout : Bool) (t : Trace)
    → Room (maxline - s.fr.iptr) (on_stdin r (go s wsock wout t))
unfolding on_stdin
on_stdin-Room r s wsock wout t = elim (Bool-cases r.stdin_readable) [
  | inl e ↦ rw e (read_stdin-Room r.stdin_reply s wsock wout t)
  | inr e ↦ rw e refl
]

on_sock-Keeps :
    (r : Round) (p : Phase) (n : ℕ)
    → Keeps p
    → ReplyFits r.sock_reply n
    → Room n p
    → Keeps (on_sock r p)
unfolding on_sock
on_sock-Keeps r (exit e t) n v f m = v
on_sock-Keeps r (go s wsock wout t) n v f m = elim (Bool-cases r.sock_readable) [
  | inl e ↦
      rw e (read_sock-Keeps r.sock_reply s wsock wout t v (subst (ReplyFits r.sock_reply) m f))
  | inr e ↦ rw e v
]

on_stdout-Keeps : (r : Round) (p : Phase) → Keeps p → StdoutFits r p → Keeps (on_stdout r p)
unfolding on_stdout
on_stdout-Keeps r (exit e t) v f = v
on_stdout-Keeps r (go s wsock wout t) v f = elim (Bool-cases (wout && ltb s.fr.optr s.fr.iptr)) [
  | inl e ↦ rw e (write_stdout-Keeps r.stdout_reply s wsock wout t v f)
  | inr e ↦ rw e v
]

on_sock_write-Keeps : (r : Round) (p : Phase) → Keeps p → SockFits r p → Keeps (on_sock_write r p)
unfolding on_sock_write
on_sock_write-Keeps r (exit e t) v f = v
on_sock_write-Keeps r (go s wsock wout t) v f =
    elim (Bool-cases (wsock && ltb s.to.optr s.to.iptr)) [
      | inl e ↦ rw e (write_sock-Keeps r.sock_write_reply s wsock wout t v (ground (arith, e)) f)
      | inr e ↦ rw e v
    ]

-- A round that begins in a sound state and is answered within the limits ends in a sound state, or
-- at a return whose trace loses, repeats and reorders nothing.
pub round-Keeps :
    (r : Round) (s : State) (t : Trace) → Sound s t → Answers r s t → Keeps (round r s t)
unfolding round
round-Keeps r s t v a =
    on_sock_write-Keeps r _
      (on_stdout-Keeps r _
        (on_sock-Keeps r _ (maxline - s.fr.iptr)
          (on_stdin-Keeps r s r.sock_writable r.stdout_writable t v a.stdin_wanted a.stdin_fits)
          a.sock_fits (on_stdin-Room r s r.sock_writable r.stdout_writable t))
        a.stdout_fits)
      a.sock_write_fits
