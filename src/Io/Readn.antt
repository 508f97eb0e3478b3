-- ===== src/Io/Readn.antt =====
-- lib/readn.c: read exactly `n` bytes from a stream descriptor.
pub mod Laws
use unpv13e.Base.{
  ℕ, zero, suc, List, [], ◌∷◌, ◌++◌, Bool, true, false, Option, none, some, ◌==◌, length, sub_size,
  to_ssize, ℤ, negsuc, ltb_ℤ, pos, if◌then◌else◌,
}
use unpv13e.Io.System.{Errno, eintr, Reply, got, failed, Call}

module _ {W : Type 0} where
  -- The body of the loop behind its call of `read`, with the next round as `next`.
  pub readn_after :
      (ℕ → List ℕ → W → Option (Call × W)) → ℕ → ℕ → List ℕ → Reply × W → Option (Call × W)
  readn_after next n nleft mem (got [], w) =
      some (record { ret = to_ssize (sub_size n nleft); errno = none; mem = mem }, w)
  readn_after next n nleft mem (got (b ∷ bs), w) =
      next (sub_size nleft (length (b ∷ bs))) (mem ++ (b ∷ bs)) w
  readn_after next n nleft mem (failed eintr, w) = next (sub_size nleft 0) mem w
  readn_after next n nleft mem (failed e, w) =
      some (record { ret = negsuc 0; errno = some e; mem = mem }, w)

  module _ (read : W → ℕ → Reply × W) where
    -- `while (nleft > 0)`, on fuel; `mem` holds what stands between `vptr` and `ptr`.
    pub readn_loop : ℕ → ℕ → ℕ → List ℕ → W → Option (Call × W)
    readn_loop zero n nleft mem w = none
    readn_loop (suc fuel) n nleft mem w = elim (nleft == 0) [
      | true ↦ some (record { ret = to_ssize (sub_size n nleft); errno = none; mem = mem }, w)
      | false ↦ readn_after (readn_loop fuel n) n nleft mem (read w nleft)
    ]

    unfoldable pub readn : ℕ → ℕ → W → Option (Call × W)
    unfolding readn_loop readn_after
    readn fuel n w = readn_loop fuel n n [] w

-- What the caller of `Readn` sees: the count, or the process ends in `err_sys`.
pub data Readn : Type 0 where
  returned : ℤ → List ℕ → Readn
  err_sys : Option Errno → Readn

pub readn_checked : Call → Readn
readn_checked c = if ltb_ℤ c.ret (pos 0) then err_sys c.errno else returned c.ret c.mem
