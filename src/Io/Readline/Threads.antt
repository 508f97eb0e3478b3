-- ===== src/Io/Readline/Threads.antt =====
-- threads/readline.c: the buffer is a thread's own, made at its first call. The functions behind
-- the buffer are those of lib/readline.c.
use unpv13e.Base.{
  List, inl, inr, ◌⊎◌, Bool-cases, length-replicate, ℕ, ◌<◌, ◌≡◌, Option, none, some, arith, ◌==◌,
  if◌then◌else◌,
}
use unpv13e.Io.System.{Reply, Call, IsStream}
use unpv13e.Io.Readline.{maxline, Rline, cleared, readline}
use unpv13e.Io.Readline.Fetch.{IsValid, pending}
use unpv13e.Io.Readline.Laws.{Line, Failed, Result, readline-Result}

-- What `pthread_getspecific(rl_key)` gives in each thread.
abbrev pub Specific : Type 0
Specific = ℕ → Option Rline

-- `Calloc` makes a buffer of zeros; where it fails the process ends.
abbrev pub own : Option Rline → Rline
own none = cleared
own (some b) = b

abbrev pub setspecific : Specific → ℕ → Rline → Specific
setspecific tsd self b t = if t == self then some b else tsd t

module _ {W : Type 0} where
  abbrev store : Specific → ℕ → Option (Call × Rline × W) → Option (Call × Specific × W)
  store tsd self none = none
  store tsd self (some (c, b, w)) = some (c, setspecific tsd self b, w)

  -- `readline` of the thread `self`.
  pub readline_r : (W → ℕ → Reply × W) → ℕ → ℕ → ℕ → Specific → W → Option (Call × Specific × W)
  readline_r read fuel maxlen self tsd w =
      store tsd self (readline read fuel maxlen (own (tsd self)) w)

abbrev pub IsValidIn : Option Rline → Type 0
IsValidIn none = Unit {0}
IsValidIn (some b) = IsValid b

-- Each thread that has a buffer has a valid one.
abbrev pub AllValid : Specific → Type 0
AllValid tsd = (t : ℕ) → IsValidIn (tsd t)

module _ {W : Type 0} {read : W → ℕ → Reply × W} (h : IsStream read) where
  -- The call came back as `readline` on the thread's own buffer, and all else is as it was.
  pub record Isolated (maxlen self : ℕ) (tsd : Specific) (w : W) (c : Call) (tsd' : Specific)
      (w' : W) : Type 0 where
    pub result :
        (b : Rline) × (tsd' self ≡ some b)
        × Result h maxlen (pending h (own (tsd self)) w) (some (c, b, w'))
    pub others : (t : ℕ) → tsd' t ≡ (if t == self then tsd' self else tsd t)
    pub valid : AllValid tsd'

  abbrev pub ThreadResult : ℕ → ℕ → Specific → W → Option (Call × Specific × W) → Type 0
  ThreadResult maxlen self tsd w none = ⊥
  ThreadResult maxlen self tsd w (some (c, tsd', w')) = Isolated maxlen self tsd w c tsd' w'

  Line-IsValid :
      {maxlen : ℕ} {s : List ℕ} (c : Call) (b : Rline) (w : W)
      → Line h maxlen s c b w ⊎ Failed h c b
      → IsValid b
  Line-IsValid c b w (inl l) = l.valid
  Line-IsValid c b w (inr f) = f.valid

  setspecific-valid :
      (self : ℕ) (tsd : Specific) (b : Rline)
      → AllValid tsd
      → IsValid b
      → AllValid (setspecific tsd self b)
  setspecific-valid self tsd b v vb t = elim (Bool-cases (t == self)) [
    | inl same ↦ rw same vb
    | inr other ↦ rw other (v t)
  ]

  store-ThreadResult :
      (maxlen self : ℕ) (tsd : Specific) (w : W) (o : Option (Call × Rline × W))
      → AllValid tsd
      → Result h maxlen (pending h (own (tsd self)) w) o
      → ThreadResult maxlen self tsd w (store tsd self o)
  store-ThreadResult maxlen self tsd w none v r = r
  store-ThreadResult maxlen self tsd w (some (c, b, w')) v r = record {
    result = (b, ground arith, r);
    others = λ t. ground arith;
    valid = setspecific-valid self tsd b v (Line-IsValid c b w' r);
  }

cleared-IsValid : IsValid cleared
cleared-IsValid = record { size = length-replicate {A = ℕ} maxline 0; inside = omega arith }

own-IsValid : (o : Option Rline) → IsValidIn o → IsValid (own o)
own-IsValid none v = cleared-IsValid
own-IsValid (some b) v = v

-- Where each thread's buffer is valid, in a thread `self` that has a buffer or not yet, under the
-- conditions of `readline`, a call comes back as `readline` does on the buffer of `self` (one of
-- zeros at the first call), the buffers of the other threads are what they were, and each
-- buffer is valid again.
pub readline_r-Isolated :
    {W : Type 0} {read : W → ℕ → Reply × W} (h : IsStream read) (fuel maxlen self : ℕ)
    (tsd : Specific) (w : W)
    → AllValid tsd
    → 0 < maxlen
    → h.signals w < fuel
    → ThreadResult h maxlen self tsd w (readline_r read fuel maxlen self tsd w)
unfolding readline_r
readline_r-Isolated h fuel maxlen self tsd w v p f =
    store-ThreadResult h maxlen self tsd w _ v
      (readline-Result h fuel maxlen (own (tsd self)) w (own-IsValid (tsd self) (v self)) p f)
