-- ===== src/Io/Readn/Laws.antt =====
-- `readn` against the stream that the peer sends, whatever the sizes of the pieces and however
-- often the call is interrupted.
use unpv13e.Base.{
  ℕ, zero, suc, ◌+◌, ◌-◌, ◌^◌, ◌<◌, min, ◌≡◌, ◌≢◌, refl, sym, ◌∙◌, ap, subst, List, [], ◌∷◌, ◌++◌,
  append-nil, append_assoc, ◌⊎◌, inl, inr, Option, none, some, arith, ◌==◌, length, take,
  length-append, take-append, take_of_le, sub_size, sub_size_lem, to_ssize, to_ssize_lem, pos,
  negsuc, Bool-cases,
}
use unpv13e.Io.System.{
  Errno, eintr, ewouldblock, econnreset, other_errno, Reply, got, failed, Call, Reads, IsStream,
}
use unpv13e.Io.Readn.{readn_after, readn_loop, readn}

module _ {W : Type 0} (stream : W → List ℕ) where
  -- `readn` came back with the first `n` bytes of `s`, or with all of `s` where it is shorter.
  pub record Received (n : ℕ) (s : List ℕ) (c : Call) (w : W) : Type 0 where
    pub ret : c.ret ≡ pos (min n (length s))
    pub errno : c.errno ≡ none
    pub mem : c.mem ≡ take n s
    pub rest : s ≡ c.mem ++ stream w

  -- or with -1 and an error that is not an interrupt.
  pub record Refused (c : Call) : Type 0 where
    pub ret : c.ret ≡ negsuc 0
    pub errno : (e : Errno) × (c.errno ≡ some e) × (e ≢ eintr)

  abbrev pub Result : ℕ → List ℕ → Option (Call × W) → Type 0
  Result n s none = ⊥
  Result n s (some (c, w)) = Received n s c w ⊎ Refused c

module _ {W : Type 0} {read : W → ℕ → Reply × W} (h : IsStream read) (n : ℕ)
    (small : n < 2 ^ 63) where
  open h use {stream, signals, reads}

  -- What a round of the loop finds: `mem` has come, `nleft` bytes are wanted.
  record Before (s mem : List ℕ) (nleft : ℕ) (w : W) : Type 0 where
    split : s ≡ mem ++ stream w
    count : length mem + nleft ≡ n

  ret-min :
      (s mem : List ℕ) (nleft : ℕ) (w : W)
      → Before s mem nleft w
      → (nleft ≡ 0) ⊎ (stream w ≡ [])
      → to_ssize (sub_size n nleft) ≡ pos (min n (length s))
  ret-min s mem nleft w b e =
      let k : min n (length s) ≡ n - nleft =
        ground (arith, b.count, ap length b.split, length-append mem (stream w)) in
      rw (sub_size_lem n nleft (omega (arith, b.count)) (omega arith))
        (rw k (to_ssize_lem (n - nleft) (omega arith)))

  mem-take :
      (s mem : List ℕ) (nleft : ℕ) (w : W)
      → Before s mem nleft w
      → (nleft ≡ 0) ⊎ (stream w ≡ [])
      → mem ≡ take n s
  mem-take s mem nleft w b (inl e) = rw b.split (
      sym (
        subst (λ k. take k (mem ++ stream w) ≡ mem) (omega (arith, b.count))
          (take-append mem (stream w))))
  mem-take s mem nleft w b (inr e) =
      let all : s ≡ mem = b.split ∙ ap (λ r. mem ++ r) e ∙ append-nil mem in
      rw all (sym (take_of_le n mem (omega (arith, b.count))))

  -- The loop's two ways out are one: enough has come, or no more will.
  stop :
      (s mem : List ℕ) (nleft : ℕ) (w : W)
      → Before s mem nleft w
      → (nleft ≡ 0) ⊎ (stream w ≡ [])
      → Result stream n s
          (some (record { ret = to_ssize (sub_size n nleft); errno = none; mem = mem }, w))
  stop s mem nleft w b e = inl (record {
    ret = ret-min s mem nleft w b e;
    errno = refl;
    mem = mem-take s mem nleft w b e;
    rest = b.split;
  })

  -- A round that hands on leaves the next one with less to read or fewer interrupts to come.
  after-Result :
      (next : ℕ → List ℕ → W → Option (Call × W)) (s mem : List ℕ) (nleft : ℕ) (w : W)
      → Before s mem nleft w
      → 0 < nleft
      → ((nleft' : ℕ) (mem' : List ℕ) (w' : W)
          → Before s mem' nleft' w'
          → nleft' + signals w' < nleft + signals w
          → Result stream n s (next nleft' mem' w'))
      → (r : Reply × W) → Reads stream signals nleft w r
      → Result stream n s (readn_after next n nleft mem r)
  unfolding readn_after
  after-Result next s mem nleft w b pos_left ih (got [], w') (e, e', _) =
      stop s mem nleft w'
        (record { split = b.split ∙ ap (λ r. mem ++ r) (e ∙ sym e'); count = b.count }) (inr e')
  after-Result next s mem nleft w b pos_left ih (got (x ∷ bs), w') (fits, e, sig) =
      let left : sub_size nleft (length (x ∷ bs)) ≡ nleft - length (x ∷ bs) =
        sub_size_lem nleft (length (x ∷ bs)) fits (omega (arith, b.count)) in
      ih _ _ w'
        (record {
          split = b.split ∙ ap (λ r. mem ++ r) e ∙ sym (append_assoc mem (x ∷ bs) (stream w'));
          count = omega (arith, left, b.count, length-append mem (x ∷ bs));
        })
        (omega (arith, left))
  after-Result next s mem nleft w b pos_left ih (failed eintr, w') (e, sig) =
      let left : sub_size nleft 0 ≡ nleft = omega (arith, b.count) in
      ih _ mem w'
        (record {
          split = b.split ∙ ap (λ r. mem ++ r) (sym e);
          count = omega (arith, left, b.count);
        })
        (omega (arith, left))
  after-Result next s mem nleft w b pos_left ih (failed ewouldblock, w') _ =
      inr (record { ret = refl; errno = (ewouldblock, refl, λ e. cc) })
  after-Result next s mem nleft w b pos_left ih (failed econnreset, w') _ =
      inr (record { ret = refl; errno = (econnreset, refl, λ e. cc) })
  after-Result next s mem nleft w b pos_left ih (failed (other_errno k), w') _ =
      inr (record { ret = refl; errno = (other_errno k, refl, λ e. cc) })

  loop-Result :
      (fuel : ℕ) (s mem : List ℕ) (nleft : ℕ) (w : W)
      → Before s mem nleft w
      → nleft + signals w < fuel
      → Result stream n s (readn_loop read fuel n nleft mem w)
  unfolding readn_loop
  loop-Result zero s mem nleft w b m = absurd (omega arith)
  loop-Result (suc fuel) s mem nleft w b m = elim (Bool-cases (nleft == 0)) [
    | inl e ↦ rw (e, readn_loop) (stop s mem nleft w b (inl (ground arith)))
    | inr e ↦
        let some_left : 0 < nleft = ground arith in
        rw (e, readn_loop)
          (after-Result (readn_loop read fuel n) s mem nleft w b some_left
            (λ nleft' mem' w' b' m'. loop-Result fuel s mem' nleft' w' b' (omega arith))
            (read w nleft) (reads w nleft some_left))
  ]

-- On a descriptor that keeps to `IsStream`, for `n` below `SSIZE_MAX` and with more fuel than `n`
-- and the interrupts to come, `readn` comes back. It has either the first `n` bytes of the stream
-- (all of them where fewer are left), stored in order, with their number as its value and the
-- rest of the stream still unread; or -1 with an `errno` other than `EINTR`.
pub readn-Result :
    {W : Type 0} {read : W → ℕ → Reply × W} (h : IsStream read) (fuel n : ℕ) (w : W)
    → n < 2 ^ 63
    → n + h.signals w < fuel
    → Result h.stream n (h.stream w) (readn read fuel n w)
unfolding readn
readn-Result h fuel n w small m =
    loop-Result h n small fuel (h.stream w) [] n w (record { split = refl; count = omega arith }) m
