-- ===== src/Io/Writen/Laws.antt =====
-- `writen` against what the descriptor accepts, whatever the sizes of the pieces.
use unpv13e.Base.{
  ℕ, zero, suc, ◌+◌, ◌-◌, ◌^◌, ◌<◌, ◌≡◌, ◌≢◌, refl, sym, ◌∙◌, ap, List, [], ◌∷◌, ◌++◌, append-nil,
  append_assoc, ◌⊎◌, inl, inr, true, false, Option, none, some, arith, ◌==◌, length, take, drop,
  length-drop, take-append-drop, sub_size, sub_size_lem, to_ssize_lem, pos, negsuc,
}
use unpv13e.Io.System.{
  Errno, eintr, ewouldblock, econnreset, other_errno, WriteReply, wrote, write_failed, Writes,
  IsSink,
}
use unpv13e.Io.Writen.{Call, writen_after, writen_loop, writen}

-- What the call of `write` that ended the loop answered.
abbrev pub reply_of : Option Errno → WriteReply
reply_of none = wrote 0
reply_of (some e) = write_failed e

module _ {W : Type 0} (write : W → List ℕ → WriteReply × W) (sent : W → List ℕ) where
  -- All of `bs` was accepted behind `old`, once and in order, and the value is its length.
  pub record Delivered (old bs : List ℕ) (c : Call) (w : W) : Type 0 where
    pub ret : c.ret ≡ pos (length bs)
    pub errno : c.errno ≡ none
    pub sent_all : sent w ≡ old ++ bs

  -- The value is -1, not for an interrupt: a proper prefix of `bs` was accepted, and a call of `write`
  -- for all the rest failed with `errno`, or gave 0.
  pub record Broken (old bs : List ℕ) (c : Call) (w : W) : Type 0 where
    pub ret : c.ret ≡ negsuc 0
    pub errno : c.errno ≢ some eintr
    pub front : List ℕ
    pub back : List ℕ
    pub split : bs ≡ front ++ back
    pub some_left : back ≢ []
    pub sent_part : sent w ≡ old ++ front
    pub last : W
    pub refused : write last back ≡ (reply_of c.errno, w)

  abbrev pub Result : List ℕ → List ℕ → Option (Call × W) → Type 0
  Result old bs none = ⊥
  Result old bs (some (c, w)) = Delivered old bs c w ⊎ Broken old bs c w

module _ {W : Type 0} {write : W → List ℕ → WriteReply × W} (h : IsSink write)
    (old all : List ℕ) where
  open h use {sent, signals, writes}

  -- What a round of the loop finds: `front` was accepted, `bs` is left, `nleft` bytes.
  record Before (front bs : List ℕ) (nleft : ℕ) (w : W) : Type 0 where
    split : all ≡ front ++ bs
    accepted : sent w ≡ old ++ front
    count : nleft ≡ length bs
    small : length bs < 2 ^ 63

  broken :
      (front bs : List ℕ) (nleft : ℕ) (w w' : W) (e : Option Errno)
      → Before front bs nleft w
      → 0 < nleft
      → sent w' ≡ sent w
      → e ≢ some eintr
      → write w bs ≡ (reply_of e, w')
      → Result write sent old all (some (record { ret = negsuc 0; errno = e }, w'))
  broken front bs nleft w w' e b some_left same ne r = inr (record {
    ret = refl;
    errno = ne;
    front = front;
    back = bs;
    split = b.split;
    some_left = λ e. absurd (omega (arith, b.count, ap length e));
    sent_part = same ∙ b.accepted;
    last = w;
    refused = r;
  })

  after-Result :
      (next : ℕ → List ℕ → W → Option (Call × W)) (front bs : List ℕ) (nleft : ℕ) (w : W)
      → Before front bs nleft w
      → 0 < nleft
      → ((front' bs' : List ℕ) (nleft' : ℕ) (w' : W)
          → Before front' bs' nleft' w'
          → nleft' + signals w' < nleft + signals w
          → Result write sent old all (next nleft' bs' w'))
      → (r : WriteReply × W) → write w bs ≡ r
      → Writes sent signals bs w r
      → Result write sent old all (writen_after next nleft bs r)
  unfolding writen_after
  after-Result next front bs nleft w b some_left ih (wrote zero, w') r (fits, e, sig) =
      broken front bs nleft w w' none b some_left (e ∙ append-nil (sent w)) (λ q. cc) r
  after-Result next front bs nleft w b some_left ih (wrote (suc k), w') r (fits, e, sig) =
      let left : sub_size nleft (suc k) ≡ nleft - suc k =
        sub_size_lem nleft (suc k) (omega (arith, b.count)) (omega (arith, b.count, b.small)) in
      ih (front ++ take (suc k) bs) (drop (suc k) bs) _ w'
        (record {
          split =
              b.split
              ∙ ap (λ r. front ++ r) (sym (take-append-drop (suc k) bs))
              ∙ sym (append_assoc front (take (suc k) bs) (drop (suc k) bs));
          accepted =
              e
              ∙ ap (λ r. r ++ take (suc k) bs) b.accepted
              ∙ append_assoc old front (take (suc k) bs);
          count = omega (arith, left, b.count, length-drop (suc k) bs);
          small = omega (arith, b.small, length-drop (suc k) bs);
        })
        (omega (arith, left, b.count))
  after-Result next front bs nleft w b some_left ih (write_failed eintr, w') r (e, sig) =
      let left : sub_size nleft 0 ≡ nleft = omega (arith, b.count, b.small) in
      ih front bs _ w'
        (record {
          split = b.split;
          accepted = e ∙ b.accepted;
          count = left ∙ b.count;
          small = b.small;
        })
        (omega (arith, left))
  after-Result next front bs nleft w b some_left ih (write_failed ewouldblock, w') r e =
      broken front bs nleft w w' (some ewouldblock) b some_left e (λ q. cc) r
  after-Result next front bs nleft w b some_left ih (write_failed econnreset, w') r e =
      broken front bs nleft w w' (some econnreset) b some_left e (λ q. cc) r
  after-Result next front bs nleft w b some_left ih (write_failed (other_errno k), w') r e =
      broken front bs nleft w w' (some (other_errno k)) b some_left e (λ q. cc) r

  loop-Result :
      (fuel : ℕ) (front bs : List ℕ) (nleft : ℕ) (w : W)
      → length all < 2 ^ 63
      → Before front bs nleft w
      → nleft + signals w < fuel
      → Result write sent old all (writen_loop write fuel (length all) nleft bs w)
  unfolding writen_loop
  loop-Result zero front bs nleft w small b m = absurd (omega arith)
  loop-Result (suc fuel) front [] nleft w small b m =
      let done : (nleft == 0) ≡ true = ground (arith, b.count) in
      rw (done, writen_loop)
        (inl (record {
          ret = to_ssize_lem (length all) small;
          errno = refl;
          sent_all = b.accepted ∙ ap (λ r. old ++ r) (sym (append-nil front) ∙ sym b.split);
        }))
  loop-Result (suc fuel) front (x ∷ bs) nleft w small b m =
      let more : (nleft == 0) ≡ false = ground (arith, b.count) in
      rw (more, writen_loop)
        (after-Result (writen_loop write fuel (length all)) front (x ∷ bs) nleft w b
          (omega (arith, b.count))
          (λ front' bs' nleft' w' b' m'.
            loop-Result fuel front' bs' nleft' w' small b' (omega arith))
          (write w (x ∷ bs)) refl (writes w (x ∷ bs) (λ q. cc)))

-- On a descriptor that keeps to `IsSink`, for a buffer shorter than `SSIZE_MAX` and with more fuel
-- than its length and the interrupts to come, `writen` comes back. Either all bytes of the buffer
-- were accepted behind what was sent before, once and in order, and the value is their number; or
-- the value is -1, only a proper prefix was accepted, and the last call of `write` was one for all
-- the rest of the buffer that failed with this `errno`, which is not `EINTR`, or that gave 0: a
-- short write never ends the loop.
pub writen-Result :
    {W : Type 0} {write : W → List ℕ → WriteReply × W} (h : IsSink write) (fuel : ℕ) (bs : List ℕ)
    (w : W)
    → length bs < 2 ^ 63
    → length bs + h.signals w < fuel
    → Result write h.sent (h.sent w) bs (writen write fuel bs w)
unfolding writen
writen-Result h fuel bs w small m =
    loop-Result h (h.sent w) bs fuel [] bs (length bs) w small
      (record { split = refl; accepted = sym (append-nil (h.sent w)); count = refl; small = small })
      m
