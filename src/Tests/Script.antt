-- ===== src/Tests/Script.antt =====
-- Descriptors that follow a script: what `read` and `write` are at a concrete input.
use unpv13e.Base.{
  ℕ, suc, ◌-◌, ◌<◌, ◌≤◌, ◌≡◌, ◌≢◌, refl, List, [], ◌∷◌, ◌++◌, Option, none, some, arith, length,
  take, drop, take-append-drop, length-take, take_of_le, ap, sym, append_assoc, ◌∙◌,
}
use unpv13e.Io.System.{
  eintr, Reply, got, failed, WriteReply, wrote, write_failed, Reads, Writes, IsStream, IsSink,
}

-- The peer's pieces, none of them empty, and the signals that interrupt a call.
pub data Piece : Type 0 where
  chunk : ℕ → List ℕ → Piece
  signal : Piece

abbrev leave : List ℕ → List Piece → List Piece
leave [] w = w
leave (y ∷ ys) w = chunk y ys ∷ w

unfoldable pub read : List Piece → ℕ → Reply × List Piece
read [] n = (got [], [])
read (signal ∷ w) n = (failed eintr, w)
read (chunk x bs ∷ w) n = (got (x ∷ take (n - 1) bs), leave (drop (n - 1) bs) w)

abbrev pub bytes : List Piece → List ℕ
bytes [] = []
bytes (signal ∷ w) = bytes w
bytes (chunk x bs ∷ w) = x ∷ (bs ++ bytes w)

abbrev pub signals : List Piece → ℕ
signals [] = 0
signals (signal ∷ w) = suc (signals w)
signals (chunk x bs ∷ w) = signals w

bytes-leave : (l : List ℕ) (w : List Piece) → bytes (leave l w) ≡ l ++ bytes w
bytes-leave [] w = refl
bytes-leave (y ∷ ys) w = refl

signals-leave : (l : List ℕ) (w : List Piece) → signals (leave l w) ≡ signals w
signals-leave [] w = refl
signals-leave (y ∷ ys) w = refl

pub read-Reads : (w : List Piece) (n : ℕ) → 0 < n → Reads bytes signals n w (read w n)
unfolding read
read-Reads [] n h = (refl, refl, omega arith)
read-Reads (signal ∷ w) n h = (refl, omega arith)
read-Reads (chunk x bs ∷ w) n h = (
  omega (arith, length-take (n - 1) bs),
  ap (◌∷◌ x) (
      ap (λ l. l ++ bytes w) (sym (take-append-drop (n - 1) bs))
      ∙ append_assoc (take (n - 1) bs) (drop (n - 1) bs) (bytes w)
      ∙ ap (λ l. take (n - 1) bs ++ l) (sym (bytes-leave (drop (n - 1) bs) w))),
  omega (arith, signals-leave (drop (n - 1) bs) w),
)

abbrev pub read-IsStream : IsStream read
read-IsStream = record { stream = bytes; signals = signals; reads = read-Reads }

-- What was accepted, and for each call to come an interrupt, or the most that it takes less one.
-- When the schedule is over a call takes all.
abbrev pub Sink : Type 0
Sink = List ℕ × List (Option ℕ)

unfoldable pub write : Sink → List ℕ → WriteReply × Sink
write (s, []) bs = (wrote (length bs), (s ++ bs, []))
write (s, none ∷ r) bs = (write_failed eintr, (s, r))
write (s, some k ∷ r) bs =
    (wrote (length (take (suc k) bs)), (s ++ take (length (take (suc k) bs)) bs, r))

abbrev pub accepted : Sink → List ℕ
accepted w = w.0

abbrev pub interrupts : Sink → ℕ
interrupts w = length w.1

pub write-Writes : (w : Sink) (bs : List ℕ) → bs ≢ [] → Writes accepted interrupts bs w (write w bs)
unfolding write
write-Writes (s, []) bs h =
    (omega arith, ap (λ l. s ++ l) (sym (take_of_le (length bs) bs (omega arith))), omega arith)
write-Writes (s, none ∷ r) bs h = (refl, omega arith)
write-Writes (s, some k ∷ r) bs h = (omega (arith, length-take (suc k) bs), refl, omega arith)

abbrev pub write-IsSink : IsSink write
write-IsSink = record { sent = accepted; signals = interrupts; writes = write-Writes }

-- No call adds to the interrupts to come.
pub write-quiet : (s : Sink) (bs : List ℕ) → interrupts (write s bs).1 ≤ interrupts s
unfolding write
write-quiet (s, []) bs = omega arith
write-quiet (s, none ∷ r) bs = omega arith
write-quiet (s, some k ∷ r) bs = omega arith
