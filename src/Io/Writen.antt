-- ===== src/Io/Writen.antt =====
-- lib/writen.c: write all of a buffer to a stream descriptor.
pub mod Laws
pub mod Kept
use unpv13e.Base.{
  ℕ, zero, suc, List, Bool, true, false, Option, none, some, ◌==◌, length, drop, sub_size, to_ssize,
  to_size, ℤ, negsuc, pos, if◌then◌else◌, leb, ltb,
}
use unpv13e.Io.System.{Errno, eintr, WriteReply, wrote, write_failed}

-- The value of `writen`, and `errno` where a call of `write` set it.
pub record Call : Type 0 where
  pub ret : ℤ
  pub errno : Option Errno

module _ {W : Type 0} where
  -- The body of the loop behind its call of `write`, with the next round as `next`. `bs` is what
  -- stands from `ptr` on, `nleft` bytes.
  pub writen_after :
      (ℕ → List ℕ → W → Option (Call × W)) → ℕ → List ℕ → WriteReply × W → Option (Call × W)
  writen_after next nleft bs (wrote zero, w) = some (record { ret = negsuc 0; errno = none }, w)
  writen_after next nleft bs (wrote (suc k), w) = next (sub_size nleft (suc k)) (drop (suc k) bs) w
  writen_after next nleft bs (write_failed eintr, w) = next (sub_size nleft 0) bs w
  writen_after next nleft bs (write_failed e, w) =
      some (record { ret = negsuc 0; errno = some e }, w)

  module _ (write : W → List ℕ → WriteReply × W) where
    -- `while (nleft > 0)`, on fuel.
    pub writen_loop : ℕ → ℕ → ℕ → List ℕ → W → Option (Call × W)
    writen_loop zero n nleft bs w = none
    writen_loop (suc fuel) n nleft bs w = elim (nleft == 0) [
      | true ↦ some (record { ret = to_ssize n; errno = none }, w)
      | false ↦ writen_after (writen_loop fuel n) nleft bs (write w bs)
    ]

    -- `vptr` points to the bytes `bs`, and `n` is their number.
    unfoldable pub writen : ℕ → List ℕ → W → Option (Call × W)
    unfolding writen_loop writen_after
    writen fuel bs w = writen_loop fuel (length bs) (length bs) bs w

-- What the caller of `Writen` sees.
pub data Writen : Type 0 where
  returned : Writen
  err_sys : Option Errno → Writen

-- `writen(...) != nbytes`, where the left side is converted to `size_t`.
unfoldable pub writen_checked : List ℕ → Call → Writen
writen_checked bs c = if to_size c.ret == length bs then returned else err_sys c.errno
