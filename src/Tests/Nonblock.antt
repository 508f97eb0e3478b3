-- ===== src/Tests/Nonblock.antt =====
-- nonblock/strclinonb.c at concrete inputs.
use unpv13e.Base.{ℕ, ◌≡◌, refl, ap, List, [], ◌∷◌, true, false, arith, replicate, length-replicate}
use unpv13e.Io.System.{ewouldblock, got, failed, wrote, write_failed}
use unpv13e.Nonblock.Buffer.{put, sent, fresh, fresh-IsValid}
use unpv13e.Nonblock.Client.{
  from_stdin, to_sock, from_sock, shut_wr, State, initial, Round, normal, exit, wants_stdin,
  wants_sock, round, str_cli,
}
use unpv13e.Nonblock.Client.Parts.{Sound}
use unpv13e.Nonblock.Client.Runs.{Answered, Transfers, str_cli-Transfers}

abbrev quiet : Round
quiet = record {
  stdin_readable = false;
  sock_readable = false;
  sock_writable = false;
  stdout_writable = false;
  stdin_reply = failed ewouldblock;
  sock_reply = failed ewouldblock;
  stdout_reply = write_failed ewouldblock;
  sock_write_reply = write_failed ewouldblock;
}

-- Two bytes come in and one goes out; then the input ends, and the other goes out before the FIN.
abbrev rounds : List Round
rounds =
    record quiet {
      stdin_readable = true;
      stdin_reply = got (7 ∷ 8 ∷ []);
      sock_write_reply = wrote 1;
    }
    ∷ record quiet {
      stdin_readable = true;
      sock_writable = true;
      stdin_reply = got [];
      sock_write_reply = wrote 1;
    }
    ∷ record quiet { sock_readable = true; sock_reply = got [] }
    ∷ []

run :
    str_cli rounds initial []
    ≡ exit normal (shut_wr ∷ to_sock (8 ∷ []) ∷ to_sock (7 ∷ []) ∷ from_stdin (7 ∷ 8 ∷ []) ∷ [])
unfolding str_cli round put sent
run = refl

rounds-Answered : Answered rounds initial []
unfolding str_cli round put sent wants_stdin wants_sock
rounds-Answered = (
  record {
    stdin_wanted = λ e. refl;
    sock_wanted = λ e. cc;
    stdin_fits = omega arith;
    sock_fits = tt;
    stdout_fits = tt;
    sock_write_fits = omega arith;
  },
  (
    record {
      stdin_wanted = λ e. refl;
      sock_wanted = λ e. cc;
      stdin_fits = omega arith;
      sock_fits = tt;
      stdout_fits = tt;
      sock_write_fits = omega arith;
    },
    (
      record {
        stdin_wanted = λ e. cc;
        sock_wanted = λ e. refl;
        stdin_fits = tt;
        sock_fits = omega arith;
        stdout_fits = tt;
        sock_write_fits = tt;
      },
      tt,
    ),
  ),
)

str_cli-Transfers_example : Transfers (str_cli rounds initial [])
str_cli-Transfers_example = str_cli-Transfers rounds rounds-Answered

-- The input has ended, and the byte 9 is still to go to the standard output.
abbrev late : State
late = record {
  stdineof = true;
  to = fresh;
  fr = record { mem = 9 ∷ replicate 4095 0; iptr = 1; optr = 0 };
}

late-Sound : Sound late (from_sock (9 ∷ []) ∷ shut_wr ∷ [])
late-Sound = record {
  to_valid = fresh-IsValid;
  fr_valid = record {
    size = ap ℕ.suc (length-replicate {A = ℕ} 4095 0);
    order = omega arith;
    inside = omega arith;
  };
  up = refl;
  down = refl;
  fin = refl;
}

abbrev closing : Round
closing = record quiet { sock_readable = true; sock_reply = got [] }
