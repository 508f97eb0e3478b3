-- ===== src/Io/Writen/Kept.antt =====
-- lib/writen.c: what `writen` leaves as it is, and what `Writen` makes of its value.
use unpv13e.Base.{
  ℕ, zero, suc, ◌-◌, ◌^◌, ◌<◌, ◌≡◌, refl, List, inl, inr, true, false, Option, none, some, arith,
  ◌==◌, length, Bool-cases, pos, negsuc,
}
use unpv13e.Io.System.{eintr, ewouldblock, econnreset, other_errno, WriteReply, wrote, write_failed}
use unpv13e.Io.Writen.{Call, writen_after, writen_loop, writen, returned, err_sys, writen_checked}

abbrev pub Leaves : {S : Type 0} → (S → Type 0) → Option (Call × S) → Type 0
Leaves P none = Unit {0}
Leaves P (some (c, s)) = P s

-- What no call of `write` changes, `writen` does not change.
module _ {S : Type 0} (write : S → List ℕ → WriteReply × S) (P : S → Type 0)
    (keeps : (s : S) (bs : List ℕ) → P s → P (write s bs).1) where
  writen_after-Leaves :
      (next : ℕ → List ℕ → S → Option (Call × S)) (nleft : ℕ) (bs : List ℕ) (r : WriteReply × S)
      → ((n : ℕ) (l : List ℕ) (s : S) → P s → Leaves P (next n l s))
      → P r.1
      → Leaves P (writen_after next nleft bs r)
  unfolding writen_after
  writen_after-Leaves next nleft bs (wrote zero, s) ih p = p
  writen_after-Leaves next nleft bs (wrote (suc k), s) ih p = ih _ _ s p
  writen_after-Leaves next nleft bs (write_failed eintr, s) ih p = ih _ _ s p
  writen_after-Leaves next nleft bs (write_failed ewouldblock, s) ih p = p
  writen_after-Leaves next nleft bs (write_failed econnreset, s) ih p = p
  writen_after-Leaves next nleft bs (write_failed (other_errno k), s) ih p = p

  writen_loop-Leaves :
      (fuel n nleft : ℕ) (bs : List ℕ) (s : S)
      → P s
      → Leaves P (writen_loop write fuel n nleft bs s)
  unfolding writen_loop
  writen_loop-Leaves zero n nleft bs s p = tt
  writen_loop-Leaves (suc fuel) n nleft bs s p = elim (Bool-cases (nleft == 0)) [
    | inl e ↦ rw (e, writen_loop) p
    | inr e ↦
        rw (e, writen_loop)
          (writen_after-Leaves (writen_loop write fuel n) nleft bs (write s bs)
            (λ n' l s' p'. writen_loop-Leaves fuel n n' l s' p') (keeps s bs p))
  ]

  pub writen-Leaves : (fuel : ℕ) (bs : List ℕ) (s : S) → P s → Leaves P (writen write fuel bs s)
  unfolding writen
  writen-Leaves fuel bs s p = writen_loop-Leaves fuel (length bs) (length bs) bs s p

-- `Writen` goes on exactly where all was delivered.
pub delivered-returned :
    (bs : List ℕ) (c : Call) → c.ret ≡ pos (length bs) → writen_checked bs c ≡ returned
unfolding writen_checked
delivered-returned bs c e =
    let same : (length bs == length bs) ≡ true = ground arith in rw (e, same) refl

pub broken-err_sys :
    (bs : List ℕ) (c : Call)
    → c.ret ≡ negsuc 0
    → length bs < 2 ^ 63
    → writen_checked bs c ≡ err_sys c.errno
unfolding writen_checked
broken-err_sys bs c e small =
    let other : (2 ^ 64 - 0 - 1 == length bs) ≡ false = ground (arith, small) in rw (e, other) refl
