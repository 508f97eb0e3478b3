-- ===== src/Io/Readline/Fetch.antt =====
-- lib/readline.c: `my_read` against the bytes of the stream.
use unpv13e.Base.{
  ℕ, zero, suc, ◌+◌, ◌≤◌, ◌<◌, ◌≡◌, ◌≢◌, refl, sym, ◌∙◌, ap, List, [], ◌∷◌, ◌++◌, true, false,
  Option, none, some, arith, length, take, drop, drop_of_lt, length-append, length-drop,
  take-append, ℤ, pos, negsuc, pos_part, ◌-ℤ◌, ltb_ℤ,
}
use unpv13e.Io.System.{
  eintr, ewouldblock, econnreset, other_errno, Reply, got, failed, Reads, IsStream,
}
use unpv13e.Io.Readline.{
  maxline, Rline, MyRead, byte, eof, error, take_byte, fill_after, fill, my_read,
}

-- The bytes that were read and not yet given out.
abbrev pub held : Rline → List ℕ
held b = take (pos_part b.cnt) (drop b.ptr b.buf)

-- `read_ptr` and the `read_cnt` bytes behind it lie inside `read_buf`.
pub record IsValid (b : Rline) : Type 0 where
  pub size : length b.buf ≡ maxline
  pub inside : b.ptr + pos_part b.cnt ≤ maxline

-- `take_byte` gives out the first held byte, and reads inside the buffer.
take_byte_lem :
    {W : Type 0} (k ptr : ℕ) (buf : List ℕ) (w : W)
    → IsValid (record { cnt = pos (suc k); ptr = ptr; buf = buf })
    → (c : ℕ) × (take_byte (record { cnt = pos (suc k); ptr = ptr; buf = buf }) w
        ≡ some (byte c, record { cnt = pos k; ptr = ptr + 1; buf = buf }, w))
      × (take (suc k) (drop ptr buf) ≡ c ∷ take k (drop (ptr + 1) buf))
unfolding take_byte
take_byte_lem k ptr buf w v =
    let (c, e, d) = drop_of_lt buf ptr (omega (arith, v.size, v.inside)) in
    let one : suc ptr ≡ ptr + 1 = omega arith in
    let less : pos (suc k) -ℤ pos 1 ≡ pos k = ground arith in
    (c, rw (e, take_byte) (rw less), rw d (rw one))

module _ {W : Type 0} {read : W → ℕ → Reply × W} (h : IsStream read) where
  open h use {stream, signals, reads}

  -- What is still to come: the held bytes, and then the stream.
  abbrev pub pending : Rline → W → List ℕ
  pending b w = held b ++ stream w

  -- `my_read` gave out the first byte of `s`, found its end, or failed for no interrupt.
  abbrev pub Fetched : List ℕ → ℕ → Option (MyRead × Rline × W) → Type 0
  Fetched s m none = ⊥
  Fetched s m (some (byte c, b, w)) = IsValid b × (s ≡ c ∷ pending b w) × (signals w ≤ m)
  Fetched s m (some (eof, b, w)) = IsValid b × (s ≡ []) × (pending b w ≡ []) × (signals w ≤ m)
  Fetched s m (some (error e, b, w)) = IsValid b × (e ≢ eintr)

  take_byte-Fetched :
      (k ptr : ℕ) (buf s : List ℕ) (m : ℕ) (w : W)
      → IsValid (record { cnt = pos (suc k); ptr = ptr; buf = buf })
      → s ≡ take (suc k) (drop ptr buf) ++ stream w
      → signals w ≤ m
      → Fetched s m (take_byte (record { cnt = pos (suc k); ptr = ptr; buf = buf }) w)
  take_byte-Fetched k ptr buf s m w v e le =
      let (c, step, d) = take_byte_lem k ptr buf w v in
      rw step (
        record { size = v.size; inside = omega (arith, v.inside) },
        e ∙ ap (λ l. l ++ stream w) d,
        le,
      )

  fill_after-Fetched :
      (again : Rline → W → Option (MyRead × Rline × W)) (s : List ℕ) (m : ℕ) (b : Rline) (w : W)
      → IsValid b
      → s ≡ stream w
      → ((b' : Rline) (w' : W)
          → IsValid b'
          → s ≡ stream w'
          → signals w' < signals w
          → Fetched s m (again b' w'))
      → signals w ≤ m
      → (r : Reply × W) → Reads stream signals maxline w r
      → Fetched s m (fill_after again b r)
  unfolding fill_after
  fill_after-Fetched again s m b w v e ih le (got [], w') (end, end', sig) =
      (record { size = v.size; inside = omega (arith, v.inside) }, e ∙ end, end', omega arith)
  fill_after-Fetched again s m b w v e ih le (got (x ∷ bs), w') (fits, here, sig) =
      take_byte-Fetched (length bs) 0 ((x ∷ bs) ++ drop (length (x ∷ bs)) b.buf) s m w'
        (record {
          size = omega (
            arith,
            length-append (x ∷ bs) (drop (length (x ∷ bs)) b.buf),
            length-drop (length (x ∷ bs)) b.buf,
            v.size,
          );
          inside = omega arith;
        })
        (e ∙ here ∙ ap (λ l. l ++ stream w') (sym (take-append (x ∷ bs) _))) (omega arith)
  fill_after-Fetched again s m b w v e ih le (failed eintr, w') (same, sig) =
      ih _ w' (record { size = v.size; inside = omega (arith, v.inside) }) (e ∙ sym same) sig
  fill_after-Fetched again s m b w v e ih le (failed ewouldblock, w') _ =
      (record { size = v.size; inside = omega (arith, v.inside) }, λ q. cc)
  fill_after-Fetched again s m b w v e ih le (failed econnreset, w') _ =
      (record { size = v.size; inside = omega (arith, v.inside) }, λ q. cc)
  fill_after-Fetched again s m b w v e ih le (failed (other_errno k), w') _ =
      (record { size = v.size; inside = omega (arith, v.inside) }, λ q. cc)

  fill-Fetched :
      (fuel : ℕ) (s : List ℕ) (m : ℕ) (b : Rline) (w : W)
      → IsValid b
      → s ≡ stream w
      → signals w < fuel
      → signals w ≤ m
      → Fetched s m (fill read fuel b w)
  unfolding fill
  fill-Fetched zero s m b w v e f le = absurd (omega arith)
  fill-Fetched (suc fuel) s m b w v e f le =
      fill_after-Fetched (fill read fuel) s m b w v e
        (λ b' w' v' e' less. fill-Fetched fuel s m b' w' v' e' (omega arith) (omega arith)) le
        (read w maxline) (reads w maxline (omega arith))

  pub my_read-Fetched :
      (fuel : ℕ) (cnt : ℤ) (ptr : ℕ) (buf : List ℕ) (w : W)
      → let b : Rline = record { cnt = cnt; ptr = ptr; buf = buf } in
        IsValid b → signals w < fuel → Fetched (pending b w) (signals w) (my_read read fuel b w)
  unfolding my_read
  my_read-Fetched fuel (pos zero) ptr buf w v f = fill-Fetched fuel _ _ _ w v refl f (omega arith)
  my_read-Fetched fuel (pos (suc k)) ptr buf w v f =
      let test : ltb_ℤ (pos 0) (pos (suc k)) ≡ true = ground arith in
      rw test (take_byte-Fetched k ptr buf _ _ w v refl (omega arith))
  my_read-Fetched fuel (negsuc k) ptr buf w v f =
      let test : ltb_ℤ (pos 0) (negsuc k) ≡ false = ground arith in
      rw test (fill-Fetched fuel _ _ _ w v refl f (omega arith))
