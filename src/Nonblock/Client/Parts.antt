-- ===== src/Nonblock/Client/Parts.antt =====
-- nonblock/strclinonb.c: the bytes and the FIN in a trace, and each part of a round by itself.
use unpv13e.Base.{
  ℕ, suc, ◌+◌, ◌-◌, ◌≤◌, ◌<◌, ◌≡◌, sym, ◌∙◌, ap, List, [], ◌∷◌, ◌++◌, append_assoc, Bool, false,
  ◌&&◌, ◌==◌, if◌then◌else◌, arith, length, take, Bool-cases, inl, inr,
}
use unpv13e.Io.System.{
  eintr, ewouldblock, econnreset, other_errno, Reply, got, failed, WriteReply, wrote, write_failed,
}
use unpv13e.Nonblock.Buffer.{
  maxline, sent, window, is_drained, IsValid, put-IsValid, window-put, sent-IsValid, window-sent,
  is_drained-sent,
}
use unpv13e.Nonblock.Client.{
  from_stdin, to_sock, from_sock, to_stdout, shut_wr, Trace, State, Phase, go, exit, read_stdin,
  read_sock, write_stdout, write_sock,
}

-- The bytes of each kind in a trace, in the order in which they went.
abbrev pub stdin_bytes : Trace → List ℕ
stdin_bytes [] = []
stdin_bytes (from_stdin bs ∷ t) = stdin_bytes t ++ bs
stdin_bytes (_ ∷ t) = stdin_bytes t

abbrev pub sock_sent : Trace → List ℕ
sock_sent [] = []
sock_sent (to_sock bs ∷ t) = sock_sent t ++ bs
sock_sent (_ ∷ t) = sock_sent t

abbrev pub sock_bytes : Trace → List ℕ
sock_bytes [] = []
sock_bytes (from_sock bs ∷ t) = sock_bytes t ++ bs
sock_bytes (_ ∷ t) = sock_bytes t

abbrev pub stdout_bytes : Trace → List ℕ
stdout_bytes [] = []
stdout_bytes (to_stdout bs ∷ t) = stdout_bytes t ++ bs
stdout_bytes (_ ∷ t) = stdout_bytes t

abbrev pub fins : Trace → ℕ
fins [] = 0
fins (shut_wr ∷ t) = suc (fins t)
fins (_ ∷ t) = fins t

pub record Sound (s : State) (t : Trace) : Type 0 where
  pub to_valid : IsValid s.to
  pub fr_valid : IsValid s.fr
  pub up : stdin_bytes t ≡ sock_sent t ++ window s.to
  pub down : sock_bytes t ≡ stdout_bytes t ++ window s.fr
  pub fin : fins t ≡ (if s.stdineof && is_drained s.to then 1 else 0)

-- At a return, what had not been passed on is `up_rest` and `down_rest`.
pub record Ended (t : Trace) : Type 0 where
  pub up_rest : List ℕ
  pub down_rest : List ℕ
  pub up : stdin_bytes t ≡ sock_sent t ++ up_rest
  pub down : sock_bytes t ≡ stdout_bytes t ++ down_rest
  pub fin : fins t ≤ 1

abbrev pub Keeps : Phase → Type 0
Keeps (go s wsock wout t) = Sound s t
Keeps (exit e t) = Ended t

Sound-Ended : {s : State} {t : Trace} → Sound s t → Ended t
Sound-Ended {s} v = record {
  up_rest = window s.to;
  down_rest = window s.fr;
  up = v.up;
  down = v.down;
  fin = ground (arith, v.fin);
}

-- A `read` returns no more than was asked for, and a `write` no more than it was given.
abbrev pub ReplyFits : Reply → ℕ → Type 0
ReplyFits (got bs) n = length bs ≤ n
ReplyFits (failed e) n = Unit {0}

abbrev pub WriteFits : WriteReply → ℕ → Type 0
WriteFits (wrote k) n = k ≤ n
WriteFits (write_failed e) n = Unit {0}

pub read_stdin-Keeps :
    (r : Reply) (s : State) (wsock wout : Bool) (t : Trace)
    → Sound s t
    → s.stdineof ≡ false
    → ReplyFits r (maxline - s.to.iptr)
    → Keeps (read_stdin r s wsock wout t)
unfolding read_stdin
read_stdin-Keeps (failed ewouldblock) s wsock wout t v e f = v
read_stdin-Keeps (failed eintr) s wsock wout t v e f = Sound-Ended v
read_stdin-Keeps (failed econnreset) s wsock wout t v e f = Sound-Ended v
read_stdin-Keeps (failed (other_errno k)) s wsock wout t v e f = Sound-Ended v
read_stdin-Keeps (got []) s wsock wout t v e f = elim (Bool-cases (is_drained s.to)) [
  | inl d ↦ rw d record {
    to_valid = v.to_valid;
    fr_valid = v.fr_valid;
    up = v.up;
    down = v.down;
    fin = ground (arith, v.fin);
  }
  | inr d ↦ rw d record {
    to_valid = v.to_valid;
    fr_valid = v.fr_valid;
    up = v.up;
    down = v.down;
    fin = ground (arith, v.fin);
  }
]
read_stdin-Keeps (got (b ∷ bs)) s wsock wout t v e f = record {
  to_valid = put-IsValid s.to (b ∷ bs) v.to_valid f;
  fr_valid = v.fr_valid;
  up =
      ap (λ l. l ++ (b ∷ bs)) v.up
      ∙ append_assoc (sock_sent t) (window s.to) (b ∷ bs)
      ∙ ap (λ l. sock_sent t ++ l) (sym (window-put s.to (b ∷ bs) v.to_valid));
  down = v.down;
  fin = ground (arith, v.fin);
}

pub read_sock-Keeps :
    (r : Reply) (s : State) (wsock wout : Bool) (t : Trace)
    → Sound s t
    → ReplyFits r (maxline - s.fr.iptr)
    → Keeps (read_sock r s wsock wout t)
unfolding read_sock
read_sock-Keeps (failed ewouldblock) s wsock wout t v f = v
read_sock-Keeps (failed eintr) s wsock wout t v f = Sound-Ended v
read_sock-Keeps (failed econnreset) s wsock wout t v f = Sound-Ended v
read_sock-Keeps (failed (other_errno k)) s wsock wout t v f = Sound-Ended v
read_sock-Keeps (got []) s wsock wout t v f = Sound-Ended v
read_sock-Keeps (got (b ∷ bs)) s wsock wout t v f = record {
  to_valid = v.to_valid;
  fr_valid = put-IsValid s.fr (b ∷ bs) v.fr_valid f;
  up = v.up;
  down =
      ap (λ l. l ++ (b ∷ bs)) v.down
      ∙ append_assoc (stdout_bytes t) (window s.fr) (b ∷ bs)
      ∙ ap (λ l. stdout_bytes t ++ l) (sym (window-put s.fr (b ∷ bs) v.fr_valid));
  fin = v.fin;
}

pub write_stdout-Keeps :
    (r : WriteReply) (s : State) (wsock wout : Bool) (t : Trace)
    → Sound s t
    → WriteFits r (s.fr.iptr - s.fr.optr)
    → Keeps (write_stdout r s wsock wout t)
unfolding write_stdout
write_stdout-Keeps (write_failed ewouldblock) s wsock wout t v f = v
write_stdout-Keeps (write_failed eintr) s wsock wout t v f = Sound-Ended v
write_stdout-Keeps (write_failed econnreset) s wsock wout t v f = Sound-Ended v
write_stdout-Keeps (write_failed (other_errno k)) s wsock wout t v f = Sound-Ended v
write_stdout-Keeps (wrote k) s wsock wout t v f = record {
  to_valid = v.to_valid;
  fr_valid = sent-IsValid s.fr k v.fr_valid f;
  up = v.up;
  down =
      v.down
      ∙ ap (λ l. stdout_bytes t ++ l) (window-sent s.fr k v.fr_valid f)
      ∙ sym (append_assoc (stdout_bytes t) (take k (window s.fr)) (window (sent s.fr k)));
  fin = v.fin;
}

-- What a write to the socket does to the way up, whether or not a FIN follows it.
up-wrote :
    (s : State) (k : ℕ) (t : Trace)
    → Sound s t
    → k ≤ s.to.iptr - s.to.optr
    → stdin_bytes t ≡ (sock_sent t ++ take k (window s.to)) ++ window (sent s.to k)
up-wrote s k t v f =
    v.up
    ∙ ap (λ l. sock_sent t ++ l) (window-sent s.to k v.to_valid f)
    ∙ sym (append_assoc (sock_sent t) (take k (window s.to)) (window (sent s.to k)))

pub write_sock-Keeps :
    (r : WriteReply) (s : State) (wsock wout : Bool) (t : Trace)
    → Sound s t
    → s.to.optr < s.to.iptr
    → WriteFits r (s.to.iptr - s.to.optr)
    → Keeps (write_sock r s wsock wout t)
unfolding write_sock
write_sock-Keeps (write_failed ewouldblock) s wsock wout t v lt f = v
write_sock-Keeps (write_failed eintr) s wsock wout t v lt f = Sound-Ended v
write_sock-Keeps (write_failed econnreset) s wsock wout t v lt f = Sound-Ended v
write_sock-Keeps (write_failed (other_errno k)) s wsock wout t v lt f = Sound-Ended v
write_sock-Keeps (wrote k) s wsock wout t v lt f =
    elim (Bool-cases (s.to.optr + k == s.to.iptr && s.stdineof)) [
      | inl fin ↦ rw fin record {
        to_valid = sent-IsValid s.to k v.to_valid f;
        fr_valid = v.fr_valid;
        up = up-wrote s k t v f;
        down = v.down;
        fin = ground (arith, v.fin, is_drained-sent s.to k);
      }
      | inr none_yet ↦ rw none_yet record {
        to_valid = sent-IsValid s.to k v.to_valid f;
        fr_valid = v.fr_valid;
        up = up-wrote s k t v f;
        down = v.down;
        fin = ground (arith, v.fin, is_drained-sent s.to k);
      }
    ]
