-- ===== src/Io/Echo.antt =====
-- lib/str_echo.c: what comes from a socket is written back. The two directions of the socket are two
-- states, the one that read works on and the one that write works on.
pub mod Laws
use unpv13e.Base.{ℕ, zero, suc, List, [], ◌∷◌, Option, none, some}
use unpv13e.Io.System.{Errno, eintr, Reply, got, failed, WriteReply}
use unpv13e.Io.Readline.{maxline}
use unpv13e.Io.Writen.{Call, writen, Writen, returned, err_sys, writen_checked}

-- The function returns, or the process ends in `Writen` or with the error of `read`.
pub data Ending : Type 0 where
  returns : Ending
  write_error : Option Errno → Ending
  read_error : Errno → Ending

module _ {R S : Type 0} where
  -- Behind `Writen`.
  pub written :
      (S → Option (Ending × R × S)) → R → List ℕ → Option (Call × S) → Option (Ending × R × S)
  written next r bs none = none
  written next r bs (some (c, s)) = elim (writen_checked bs c) [
    | returned ↦ next s
    | err_sys e ↦ some (write_error e, r, s)
  ]

  -- Behind `read`, with the next pass of the loop as `next`.
  pub echo_after :
      (S → List ℕ → Option (Call × S))
      → (R → S → Option (Ending × R × S))
      → Reply × R
      → S
      → Option (Ending × R × S)
  unfolding written
  echo_after put next (got [], r) s = some (returns, r, s)
  echo_after put next (got (b ∷ bs), r) s = written (next r) r (b ∷ bs) (put s (b ∷ bs))
  echo_after put next (failed eintr, r) s = next r s
  echo_after put next (failed e, r) s = some (read_error e, r, s)

  module _ (read : R → ℕ → Reply × R) (write : S → List ℕ → WriteReply × S) where
    -- The loop, on fuel, with the fuel of each call of `writen`.
    unfoldable pub str_echo : ℕ → ℕ → R → S → Option (Ending × R × S)
    unfolding echo_after
    str_echo zero put_fuel r s = none
    str_echo (suc fuel) put_fuel r s =
        echo_after (λ s' bs. writen write put_fuel bs s') (str_echo fuel put_fuel) (read r maxline)
          s
