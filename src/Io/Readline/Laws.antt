-- ===== src/Io/Readline/Laws.antt =====
-- lib/readline.c: `readline` against the lines of the stream.
use unpv13e.Base.{
  ℕ, zero, suc, ◌+◌, ◌-◌, ◌≤◌, ◌<◌, ◌≡◌, ◌≢◌, refl, sym, subst, ◌∙◌, ap, List, [], ◌∷◌, ◌++◌,
  append-nil, append_assoc, ◌⊎◌, inl, inr, true, false, Option, none, some, arith, ◌==◌, ltb,
  length, length-append, pos, negsuc, ◌-ℤ◌, Bool-cases, if◌then◌else◌,
}
use unpv13e.Io.System.{Errno, eintr, Reply, Call, IsStream}
use unpv13e.Io.Readline.{newline, Rline, MyRead, byte, eof, error, line_after, line_loop, readline}
use unpv13e.Io.Readline.Line.{take_line, drop_line, is_cut, length-take_line}
use unpv13e.Io.Readline.Fetch.{IsValid, pending, Fetched, my_read-Fetched}

module _ {W : Type 0} {read : W → ℕ → Reply × W} (h : IsStream read) where
  open h use {stream, signals, reads}

  -- A line came back: the stored bytes and the null behind them fit into `maxlen`, the rest of
  -- the input is still pending h, and the value counts the stored bytes, and one more where the
  -- line was cut.
  pub record Line (maxlen : ℕ) (s : List ℕ) (c : Call) (b : Rline) (w : W) : Type 0 where
    pub valid : IsValid b
    pub mem : c.mem ≡ take_line (maxlen - 1) s ++ 0 ∷ []
    pub fits : length c.mem ≤ maxlen
    pub errno : c.errno ≡ none
    pub ret :
        c.ret ≡ pos (length (take_line (maxlen - 1) s) + (if is_cut (maxlen - 1) s then 1 else 0))
    pub rest : pending h b w ≡ drop_line (maxlen - 1) s

  -- or -1, not for an interrupt.
  pub record Failed (c : Call) (b : Rline) : Type 0 where
    pub valid : IsValid b
    pub ret : c.ret ≡ negsuc 0
    pub errno : (e : Errno) × (c.errno ≡ some e) × (e ≢ eintr)

  abbrev pub Result : ℕ → List ℕ → Option (Call × Rline × W) → Type 0
  Result maxlen s none = ⊥
  Result maxlen s (some (c, b, w)) = Line maxlen s c b w ⊎ Failed c b

  -- The same in the middle of the loop: `mem` was stored, `k` more bytes fit, `s` is pending h.
  record Part (k : ℕ) (mem s : List ℕ) (c : Call) (b : Rline) (w : W) : Type 0 where
    valid : IsValid b
    mem_eq : c.mem ≡ (mem ++ take_line k s) ++ 0 ∷ []
    errno : c.errno ≡ none
    ret : c.ret ≡ pos (length mem + length (take_line k s) + (if is_cut k s then 1 else 0))
    rest : pending h b w ≡ drop_line k s

  abbrev PartResult : ℕ → List ℕ → List ℕ → Option (Call × Rline × W) → Type 0
  PartResult k mem s none = ⊥
  PartResult k mem s (some (c, b, w)) = Part k mem s c b w ⊎ Failed c b

  -- One more byte that is no newline.
  Part-cons :
      (k : ℕ) (mem s : List ℕ) (x : ℕ) (o : Option (Call × Rline × W))
      → (x == newline) ≡ false
      → PartResult k (mem ++ x ∷ []) s o
      → PartResult (suc k) mem (x ∷ s) o
  unfolding take_line drop_line is_cut
  Part-cons k mem s x none ne p = p
  Part-cons k mem s x (some (c, b, w)) ne (inr f) = inr f
  Part-cons k mem s x (some (c, b, w)) ne (inl p) = inl (record {
    valid = p.valid;
    mem_eq = rw ne (p.mem_eq ∙ ap (λ l. l ++ 0 ∷ []) (append_assoc mem (x ∷ []) _));
    errno = p.errno;
    ret = rw ne (p.ret ∙ ap pos (omega (arith, length-append mem (x ∷ []))));
    rest = rw ne p.rest;
  })

  Part-newline :
      (k : ℕ) (mem : List ℕ) (x : ℕ) (b : Rline) (w : W)
      → (x == newline) ≡ true
      → IsValid b
      → Part
          (suc k)
          mem
          (x ∷ pending h b w)
          (record { ret = pos (length mem + 1); errno = none; mem = (mem ++ x ∷ []) ++ 0 ∷ [] })
          b
          w
  unfolding take_line drop_line is_cut
  Part-newline k mem x b w nl v = record {
    valid = v;
    mem_eq = rw nl;
    errno = refl;
    ret = rw nl (ap pos (omega arith));
    rest = rw nl;
  }

  Part-eof :
      (k : ℕ) (mem : List ℕ) (b : Rline) (w : W)
      → IsValid b
      → pending h b w ≡ []
      → Part
          (suc k)
          mem
          []
          (record { ret = pos (length mem + 1) -ℤ pos 1; errno = none; mem = mem ++ 0 ∷ [] })
          b
          w
  unfolding take_line drop_line is_cut
  Part-eof k mem b w v e = record {
    valid = v;
    mem_eq = ap (λ l. l ++ 0 ∷ []) (sym (append-nil mem));
    errno = refl;
    ret = ground arith;
    rest = e;
  }

  line_after-Part :
      (next : ℕ → List ℕ → Rline → W → Option (Call × Rline × W)) (k m : ℕ) (mem s : List ℕ)
      → ((x : ℕ) (b : Rline) (w : W)
          → IsValid b
          → signals w ≤ m
          → PartResult k
              (mem ++ x ∷ [])
              (pending h b w)
              (next (length mem + 1 + 1) (mem ++ x ∷ []) b w))
      → (o : Option (MyRead × Rline × W)) → Fetched h s m o
      → PartResult (suc k) mem s (line_after next (length mem + 1) mem o)
  unfolding line_after
  line_after-Part next k m mem s ih none f = f
  line_after-Part next k m mem s ih (some (byte c, b, w)) (v, e, le) =
      subst
        (λ l. PartResult (suc k) mem l (line_after next (length mem + 1) mem (some (byte c, b, w))))
        (sym e)
        (elim (Bool-cases (c == newline)) [
          | inl nl ↦ rw nl (inl (Part-newline k mem c b w nl v))
          | inr other ↦ rw other (Part-cons k mem (pending h b w) c _ other (ih c b w v le))
        ])
  line_after-Part next k m mem s ih (some (eof, b, w)) (v, e, e', le) =
      subst
        (λ l. PartResult (suc k) mem l (line_after next (length mem + 1) mem (some (eof, b, w))))
        (sym e) (inl (Part-eof k mem b w v e'))
  line_after-Part next k m mem s ih (some (error e, b, w)) (v, ne) =
      inr (record { valid = v; ret = refl; errno = (e, refl, ne) })

  Part-full :
      (mem : List ℕ) (b : Rline) (w : W)
      → IsValid b
      → Part 0 mem
          (pending h b w)
          (record { ret = pos (length mem + 1); errno = none; mem = mem ++ 0 ∷ [] })
          b
          w
  unfolding take_line drop_line is_cut
  Part-full mem b w v = record {
    valid = v;
    mem_eq = ap (λ l. l ++ 0 ∷ []) (sym (append-nil mem));
    errno = refl;
    ret = ap pos (omega arith);
    rest = refl;
  }

  line_loop-Part :
      (k rounds fuel maxlen : ℕ) (mem : List ℕ) (b : Rline) (w : W)
      → IsValid b
      → length mem + 1 + k ≡ maxlen
      → k < rounds
      → signals w < fuel
      → PartResult k mem
          (pending h b w)
          (line_loop read rounds fuel maxlen (length mem + 1) mem b w)
  unfolding line_loop
  line_loop-Part k zero fuel maxlen mem b w v e r f = absurd (omega arith)
  line_loop-Part zero (suc rounds) fuel maxlen mem b w v e r f =
      let test : ltb (length mem + 1) maxlen ≡ false = ground arith in
      rw (test, line_loop) (inl (Part-full mem b w v))
  line_loop-Part (suc k) (suc rounds) fuel maxlen mem b w v e r f =
      let test : ltb (length mem + 1) maxlen ≡ true = ground arith in
      rw (test, line_loop)
        (line_after-Part (line_loop read rounds fuel maxlen) k (signals w) mem _
          (λ x b' w' v' le.
            let longer : length (mem ++ x ∷ []) ≡ length mem + 1 = length-append mem (x ∷ []) in
            subst
              (λ n.
                PartResult k (mem ++ x ∷ []) (pending h b' w')
                  (line_loop read rounds fuel maxlen (n + 1) (mem ++ x ∷ []) b' w'))
              longer
              (line_loop-Part k rounds fuel maxlen (mem ++ x ∷ []) b' w' v' (omega (arith, longer))
                (omega arith) (omega arith)))
          _ (my_read-Fetched h fuel b.cnt b.ptr b.buf w v f))

  finish :
      (k : ℕ) (s : List ℕ) (o : Option (Call × Rline × W))
      → PartResult k [] s o
      → Result (k + 1) s o
  finish k s none p = p
  finish k s (some (c, b, w)) (inr f) = inr f
  finish k s (some (c, b, w)) (inl p) =
      let same : k + 1 - 1 ≡ k = omega arith in
      inl (record {
        valid = p.valid;
        mem = rw same p.mem_eq;
        fits = omega (
          arith,
          ap length p.mem_eq,
          length-append (take_line k s) (0 ∷ []),
          length-take_line k s,
        );
        errno = p.errno;
        ret = rw same (p.ret ∙ ap pos (omega arith));
        rest = rw same p.rest;
      })

-- On a descriptor that keeps to `IsStream`, from a valid buffer, with room for the null byte and
-- with more fuel than there are interrupts to come, `readline` comes back with a valid buffer. It
-- stored the input up to its first newline, or the first `maxlen - 1` bytes, or all there was,
-- with a null byte behind them, inside `maxlen` bytes, and what follows is still to be read; or it
-- returned -1, not for an interrupt. The value is the number of bytes stored without the null,
-- but one more where `maxlen - 1` bytes came with no newline.
pub readline-Result :
    {W : Type 0} {read : W → ℕ → Reply × W} (h : IsStream read) (fuel maxlen : ℕ) (b : Rline)
    (w : W)
    → IsValid b
    → 0 < maxlen
    → h.signals w < fuel
    → Result h maxlen (pending h b w) (readline read fuel maxlen b w)
unfolding readline
readline-Result h fuel zero b w v p f = absurd (omega arith)
readline-Result {read = read} h fuel (suc k) b w v p f =
    let one : suc k ≡ k + 1 = omega arith in
    subst (λ n. Result h n (pending h b w) (readline read fuel (suc k) b w)) (sym one)
      (finish h k _ _
        (line_loop-Part h k (suc (suc k)) fuel (suc k) [] b w v (omega arith) (omega arith) f))
