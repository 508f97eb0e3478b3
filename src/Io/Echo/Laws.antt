-- ===== src/Io/Echo/Laws.antt =====
-- lib/str_echo.c: what was written against what came.
use unpv13e.Base.{ℕ, ◌≡◌, ◌≢◌, List, [], ◌++◌, Option, none, some}
use unpv13e.Io.System.{eintr, Reply, WriteReply, IsStream, IsSink}
use unpv13e.Io.Echo.{Ending, returns, write_error, read_error}

module _ {R S : Type 0} {read : R → ℕ → Reply × R} {write : S → List ℕ → WriteReply × S}
    (h : IsStream read) (k : IsSink write) where
  -- All that came, up to the end of the input, was written behind what had been written before.
  abbrev pub Echoed : R → S → Option (Ending × R × S) → Type 0
  Echoed r s none = ⊥
  Echoed r s (some (returns, r', s')) = (h.stream r' ≡ []) × (k.sent s' ≡ k.sent s ++ h.stream r)
  Echoed r s (some (write_error e, r', s')) =
      (e ≢ some eintr)
      × (front : List ℕ) × (back : List ℕ) × (h.stream r ≡ front ++ back)
      × (back ≢ [])
      × (k.sent s' ≡ k.sent s ++ front)
  Echoed r s (some (read_error e, r', s')) =
      (e ≢ eintr)
      × (front : List ℕ) × (back : List ℕ) × (h.stream r ≡ front ++ back)
      × (k.sent s' ≡ k.sent s ++ front)
