-- ===== src/Io/System.antt =====
-- What the system calls `read` and `write` answer, and what their callers rely on.
use unpv13e.Base.{ℕ, ◌≤◌, ◌<◌, ◌≡◌, List, [], ◌∷◌, ◌++◌, Option, length, take, ℤ, ◌≢◌}

pub data Errno : Type 0 where
  eintr ewouldblock econnreset : Errno
  other_errno : ℕ → Errno

-- `got bs`: the call returns `length bs`, which is 0 at the end of the input, with the bytes in
-- the buffer. `failed e`: it returns -1 with `errno` at `e`.
pub data Reply : Type 0 where
  got : List ℕ → Reply
  failed : Errno → Reply

-- `wrote k`: the call returns `k`.
pub data WriteReply : Type 0 where
  wrote : ℕ → WriteReply
  write_failed : Errno → WriteReply

-- How a function of the library came back: its value, `errno` where it set or passed one, and the
-- bytes that it stored through the caller's pointer.
pub record Call : Type 0 where
  pub ret : ℤ
  pub errno : Option Errno
  pub mem : List ℕ

module _ {W : Type 0} (stream : W → List ℕ) (signals : W → ℕ) where
  -- A `read` of at most `n` bytes (n > 0) on a stream: it takes from the front of what the peer
  -- sends, at least one byte unless the peer has closed, and an interrupted call takes nothing.
  abbrev pub Reads : ℕ → W → Reply × W → Type 0
  Reads n w (got [], w') = (stream w ≡ []) × (stream w' ≡ []) × (signals w' ≤ signals w)
  Reads n w (got (b ∷ bs), w') =
      (length (b ∷ bs) ≤ n) × (stream w ≡ (b ∷ bs) ++ stream w') × (signals w' ≤ signals w)
  Reads n w (failed eintr, w') = (stream w' ≡ stream w) × (signals w' < signals w)
  Reads n w (failed _, w') = Unit {0}

  -- A `write` of `bs` (not empty): it passes on a prefix, and an interrupted call nothing. Here
  -- `stream` is what the descriptor has accepted so far.
  abbrev pub Writes : List ℕ → W → WriteReply × W → Type 0
  Writes bs w (wrote k, w') =
      (k ≤ length bs) × (stream w' ≡ stream w ++ take k bs) × (signals w' ≤ signals w)
  Writes bs w (write_failed eintr, w') = (stream w' ≡ stream w) × (signals w' < signals w)
  Writes bs w (write_failed _, w') = stream w' ≡ stream w

-- `stream` is what the peer still sends before it closes, `signals` bounds the interrupts to come.
pub record IsStream {W : Type 0} (read : W → ℕ → Reply × W) : Type 0 where
  pub stream : W → List ℕ
  pub signals : W → ℕ
  pub reads : (w : W) (n : ℕ) → 0 < n → Reads stream signals n w (read w n)

pub record IsSink {W : Type 0} (write : W → List ℕ → WriteReply × W) : Type 0 where
  pub sent : W → List ℕ
  pub signals : W → ℕ
  pub writes : (w : W) (bs : List ℕ) → bs ≢ [] → Writes sent signals bs w (write w bs)
