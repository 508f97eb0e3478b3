-- ===== src/Nonblock/Client/Runs.antt =====
-- nonblock/strclinonb.c: whole runs of `str_cli`, and how it returns.
use unpv13e.Base.{
  ◌⊎◌, inl, inr, Bool-cases, ◌-◌, ◌≡◌, ◌≢◌, refl, sym, ◌∙◌, ap, List, [], ◌∷◌, ◌++◌, append-nil,
  true, false, arith, nil_of_append, take, drop, ◌&&◌,
}
use unpv13e.Io.System.{got}
use unpv13e.Nonblock.Buffer.{fresh-IsValid, window, is_drained}
use unpv13e.Nonblock.Client.{
  Trace, State, initial, Round, normal, next_round, Phase, go, exit, round, str_cli,
}
use unpv13e.Nonblock.Client.Parts.{
  stdin_bytes, sock_sent, sock_bytes, stdout_bytes, fins, Sound, Ended, Keeps,
}
use unpv13e.Nonblock.Client.Laws.{Answers, round-Keeps}

abbrev AtGo : (State → Trace → Type 0) → Phase → Type 0
AtGo P (go s wsock wout t) = P s t
AtGo P (exit e t) = Unit {0}

-- Every round of the run is answered within the limits of the state in which it begins.
abbrev pub Answered : List Round → State → Trace → Type 0
Answered [] s t = Unit {0}
Answered (r ∷ rs) s t = Answers r s t × AtGo (Answered rs) (round r s t)

next_round-Keeps :
    (again : State → Trace → Phase) (P : State → Trace → Type 0) (p : Phase)
    → ((s : State) (t : Trace) → Sound s t → P s t → Keeps (again s t))
    → Keeps p
    → AtGo P p
    → Keeps (next_round again p)
unfolding next_round
next_round-Keeps again P (go s wsock wout t) ih v a = ih s t v a
next_round-Keeps again P (exit e t) ih v a = v

str_cli-Keeps :
    (rs : List Round) (s : State) (t : Trace) → Sound s t → Answered rs s t → Keeps (str_cli rs s t)
unfolding str_cli
str_cli-Keeps [] s t v a = v
str_cli-Keeps (r ∷ rs) s t v (a, later) =
    next_round-Keeps (str_cli rs) (Answered rs) (round r s t) (str_cli-Keeps rs)
      (round-Keeps r s t v a) later

-- What holds of a run from the start of the function: the bytes, and what a FIN means.
pub record Transfer (s : State) (t : Trace) : Type 0 where
  pub sound : Sound s t
  pub fin_complete :
      (fins t ≡ 0) ⊎ ((fins t ≡ 1) × (s.stdineof ≡ true) × (sock_sent t ≡ stdin_bytes t))

abbrev pub Transfers : Phase → Type 0
Transfers (go s wsock wout t) = Transfer s t
Transfers (exit e t) = Ended t

Sound-Transfer : (s : State) (t : Trace) → Sound s t → Transfer s t
Sound-Transfer s t v = record {
  sound = v;
  fin_complete = elim (Bool-cases (s.stdineof && is_drained s.to)) [
    | inr e ↦ inl (v.fin ∙ rw e refl)
    | inl e ↦
        let both : (s.stdineof ≡ true) × (s.to.iptr - s.to.optr ≡ 0) = ground (arith, e) in
        inr (
          v.fin ∙ rw e refl,
          both.0,
          sym (
              v.up
              ∙ ap (λ n. sock_sent t ++ take n (drop s.to.optr s.to.mem)) both.1
              ∙ append-nil (sock_sent t)),
        )
  ];
}

of_Keeps : (p : Phase) → Keeps p → Transfers p
of_Keeps (go s wsock wout t) v = Sound-Transfer s t v
of_Keeps (exit e t) v = v

initial-Sound : Sound initial []
initial-Sound = record {
  to_valid = fresh-IsValid;
  fr_valid = fresh-IsValid;
  up = refl;
  down = refl;
  fin = refl;
}

-- A run of `str_cli` from its start, with every answer of the kernel inside what was asked for: after
-- each round both buffers are valid, what was read from the standard input is what was sent to the
-- socket and then what the buffer holds, the same on the way back, and the number of FINs is 1 if
-- the input has ended and its buffer is drained, and 0 if not; where a FIN has gone out, the
-- input has ended and all of it was sent. Where the function returns, what was passed on either
-- way is a front part of what was read, and there was at most one FIN.
pub str_cli-Transfers :
    (rs : List Round) → Answered rs initial [] → Transfers (str_cli rs initial [])
str_cli-Transfers rs a = of_Keeps _ (str_cli-Keeps rs initial [] initial-Sound a)

-- In a sound state after the end of the input, with bytes that have not yet gone to the standard
-- output, a round in which the socket alone is readable and gives its end returns normally, and
-- those bytes are never written.
pub round-drops :
    (r : Round) (s : State) (t : Trace)
    → Sound s t
    → s.stdineof ≡ true
    → window s.fr ≢ []
    → r.stdin_readable ≡ false
    → r.sock_readable ≡ true
    → r.sock_reply ≡ got []
    → (round r s t ≡ exit normal t) × (sock_bytes t ≢ stdout_bytes t)
unfolding round
round-drops r s t v eof left no_in in_ reply = (
  rw (no_in, in_, reply, eof) refl,
  λ e. left (nil_of_append (stdout_bytes t) (window s.fr) (sym e ∙ v.down)),
)
