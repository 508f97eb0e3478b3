-- ===== src/Io/Readline.antt =====
-- lib/readline.c: one line at a time, over a buffer of the library's own. The same functions over a
-- buffer for each thread, threads/readline.c, are in Readline/Threads.antt.
pub mod Line
pub mod Fetch
pub mod Laws
pub mod Threads
use unpv13e.Base.{
  ℕ, zero, suc, ◌+◌, ◌-◌, List, [], ◌∷◌, ◌++◌, Bool, true, false, Option, none, some, ◌==◌, ltb,
  length, get_elem?, drop, replicate, ℤ, pos, negsuc, ◌-ℤ◌, if◌then◌else◌, ltb_ℤ,
}
use unpv13e.Io.System.{Errno, eintr, Reply, got, failed, Call}

abbrev pub maxline : ℕ
maxline = 4096

abbrev pub newline : ℕ
newline = 10

-- `read_cnt`, `read_ptr` (as an index) and `read_buf`.
pub record Rline : Type 0 where
  pub cnt : ℤ
  pub ptr : ℕ
  pub buf : List ℕ

abbrev pub cleared : Rline
cleared = record { cnt = pos 0; ptr = 0; buf = replicate maxline 0 }

-- What `my_read` returns: 1 with the byte in `*ptr`, 0, or -1 with `errno`.
pub data MyRead : Type 0 where
  byte : ℕ → MyRead
  eof : MyRead
  error : Errno → MyRead

-- `read` fills the front of the buffer.
abbrev pub refill : List ℕ → List ℕ → List ℕ
refill bs buf = bs ++ drop (length bs) buf

module _ {W : Type 0} where
  -- `read_cnt--; *ptr = *read_ptr++; return(1);`. A read behind the buffer is a fault, `none`.
  pub take_byte : Rline → W → Option (MyRead × Rline × W)
  take_byte b w = elim (get_elem? b.buf b.ptr) [
    | none ↦ none
    | some c ↦ some (byte c, record b { cnt = b.cnt -ℤ pos 1; ptr = b.ptr + 1 }, w)
  ]

  -- The code behind the call of `read`; `again` is the jump back to it.
  pub fill_after :
      (Rline → W → Option (MyRead × Rline × W)) → Rline → Reply × W → Option (MyRead × Rline × W)
  fill_after again b (got [], w) = some (eof, record b { cnt = pos 0 }, w)
  fill_after again b (got (x ∷ bs), w) =
      take_byte (record { cnt = pos (length (x ∷ bs)); ptr = 0; buf = refill (x ∷ bs) b.buf }) w
  fill_after again b (failed eintr, w) = again (record b { cnt = negsuc 0 }) w
  fill_after again b (failed e, w) = some (error e, record b { cnt = negsuc 0 }, w)

  -- How the loop of `readline` goes on with what `my_read` gave; `next` is its next round.
  pub line_after :
      (ℕ → List ℕ → Rline → W → Option (Call × Rline × W))
      → ℕ
      → List ℕ
      → Option (MyRead × Rline × W)
      → Option (Call × Rline × W)
  line_after next n mem none = none
  line_after next n mem (some (byte c, b, w)) =
      let rest = next (n + 1) (mem ++ c ∷ []) b w in
      if c == newline
      then some (record { ret = pos n; errno = none; mem = (mem ++ c ∷ []) ++ 0 ∷ [] }, b, w)
      else rest
  line_after next n mem (some (eof, b, w)) =
      some (record { ret = pos n -ℤ pos 1; errno = none; mem = mem ++ 0 ∷ [] }, b, w)
  line_after next n mem (some (error e, b, w)) =
      some (record { ret = negsuc 0; errno = some e; mem = mem }, b, w)

  module _ (read : W → ℕ → Reply × W) where
    -- From the label `again` on, on fuel.
    pub fill : ℕ → Rline → W → Option (MyRead × Rline × W)
    fill zero b w = none
    fill (suc fuel) b w = fill_after (fill fuel) b (read w maxline)

    pub my_read : ℕ → Rline → W → Option (MyRead × Rline × W)
    my_read fuel b w = if ltb_ℤ (pos 0) b.cnt then take_byte b w else fill fuel b w

    -- `for (n = 1; n < maxlen; n++)`, on `rounds`; `mem` holds what stands before `ptr`.
    pub line_loop : ℕ → ℕ → ℕ → ℕ → List ℕ → Rline → W → Option (Call × Rline × W)
    line_loop zero fuel maxlen n mem b w = none
    line_loop (suc rounds) fuel maxlen n mem b w = elim (ltb n maxlen) [
      | true ↦ line_after (line_loop rounds fuel maxlen) n mem (my_read fuel b w)
      | false ↦ some (record { ret = pos n; errno = none; mem = mem ++ 0 ∷ [] }, b, w)
    ]

    unfoldable pub readline : ℕ → ℕ → Rline → W → Option (Call × Rline × W)
    unfolding line_loop line_after my_read fill fill_after take_byte
    readline fuel maxlen b w = line_loop (suc maxlen) fuel maxlen 1 [] b w

-- The value, and the place in the buffer that goes through `vptrptr`.
pub readlinebuf : Rline → ℤ × Option ℕ
readlinebuf b = (b.cnt, elim b.cnt [ pos zero ↦ none | _ ↦ some b.ptr ])
