-- ===== src/Nonblock/Buffer.antt =====
-- The buffers `to` and `fr` of `str_cli`, each with its pointers in and out.
use unpv13e.Base.{
  ℕ, ◌+◌, ◌-◌, ◌≤◌, ◌≡◌, sym, ◌∙◌, ap, List, ◌++◌, append_assoc, Bool, ◌==◌, if◌then◌else◌, arith,
  length, take, drop, replicate, length-append, length-take, length-drop, length-replicate,
  take-add, drop-add, take-take, drop-take, drop-append_of_le, take-append_of_eq, Bool-cases, inl,
  inr,
}

abbrev pub maxline : ℕ
maxline = 4096

-- `iptr` is where the next byte goes in and `optr` where the next comes out, as indices.
pub record Buffer : Type 0 where
  pub mem : List ℕ
  pub iptr : ℕ
  pub optr : ℕ

abbrev pub fresh : Buffer
fresh = record { mem = replicate maxline 0; iptr = 0; optr = 0 }

-- `read(fd, iptr, ...)` stored `bs`, and `iptr += n`.
unfoldable pub put : Buffer → List ℕ → Buffer
put b bs = record b {
  mem = take b.iptr b.mem ++ (bs ++ drop (b.iptr + length bs) b.mem);
  iptr = b.iptr + length bs;
}

-- `optr += nwritten; if (optr == iptr) optr = iptr = buffer;`
unfoldable pub sent : Buffer → ℕ → Buffer
sent b k =
    if b.optr + k == b.iptr then record b { iptr = 0; optr = 0 } else record b { optr = b.optr + k }

abbrev pub is_drained : Buffer → Bool
is_drained b = b.optr == b.iptr

-- The bytes between the pointers, which are still to be written.
abbrev pub window : Buffer → List ℕ
window b = take (b.iptr - b.optr) (drop b.optr b.mem)

pub record IsValid (b : Buffer) : Type 0 where
  pub size : length b.mem ≡ maxline
  pub order : b.optr ≤ b.iptr
  pub inside : b.iptr ≤ maxline

pub fresh-IsValid : IsValid fresh
fresh-IsValid = record {
  size = length-replicate {A = ℕ} maxline 0;
  order = omega arith;
  inside = omega arith;
}

pub length-window : (b : Buffer) → IsValid b → length (window b) ≡ b.iptr - b.optr
length-window b v = omega (
  arith,
  v.size,
  v.order,
  v.inside,
  length-take (b.iptr - b.optr) (drop b.optr b.mem),
  length-drop b.optr b.mem,
)

pub put-IsValid :
    (b : Buffer) (bs : List ℕ) → IsValid b → length bs ≤ maxline - b.iptr → IsValid (put b bs)
unfolding put
put-IsValid b bs v h = record {
  size = omega (
    arith,
    v.size,
    v.inside,
    length-append (take b.iptr b.mem) (bs ++ drop (b.iptr + length bs) b.mem),
    length-append bs (drop (b.iptr + length bs) b.mem),
    length-take b.iptr b.mem,
    length-drop (b.iptr + length bs) b.mem,
  );
  order = omega (arith, v.order);
  inside = omega (arith, v.inside);
}

-- What is put in joins the end of the window.
pub window-put : (b : Buffer) (bs : List ℕ) → IsValid b → window (put b bs) ≡ window b ++ bs
unfolding put
window-put b bs v =
    let rest = drop (b.iptr + length bs) b.mem in
    let front : length (take b.iptr b.mem) ≡ b.iptr =
      omega (arith, v.size, v.inside, length-take b.iptr b.mem) in
    let cut : drop b.optr (take b.iptr b.mem ++ (bs ++ rest)) ≡ (window b ++ bs) ++ rest =
      drop-append_of_le b.optr (take b.iptr b.mem) (bs ++ rest) (omega (arith, front, v.order))
      ∙ ap (λ l. l ++ (bs ++ rest)) (drop-take b.optr b.iptr b.mem v.order)
      ∙ sym (append_assoc (window b) bs rest) in
    ap (take (b.iptr + length bs - b.optr)) cut
    ∙ take-append_of_eq (b.iptr + length bs - b.optr) (window b ++ bs) rest
        (omega (arith, length-append (window b) bs, length-window b v, v.order))

pub sent-IsValid : (b : Buffer) (k : ℕ) → IsValid b → k ≤ b.iptr - b.optr → IsValid (sent b k)
unfolding sent
sent-IsValid b k v h = ground (arith, v.size, v.order, v.inside)

-- What is sent leaves the front of the window.
pub window-sent :
    (b : Buffer) (k : ℕ)
    → IsValid b
    → k ≤ b.iptr - b.optr
    → window b ≡ take k (window b) ++ window (sent b k)
unfolding sent
window-sent b k v h =
    let n = b.iptr - b.optr in
    let all : window b ≡ take k (window b) ++ take (n - k) (drop (b.optr + k) b.mem) =
      ap (λ j. take j (drop b.optr b.mem)) (omega (arith, h))
      ∙ take-add k (n - k) (drop b.optr b.mem)
      ∙ ap (λ l. l ++ take (n - k) (drop k (drop b.optr b.mem)))
          (sym (take-take k n (drop b.optr b.mem) h))
      ∙ ap (λ l. take k (window b) ++ take (n - k) l) (sym (drop-add b.optr k b.mem)) in
    elim (Bool-cases (b.optr + k == b.iptr)) [
      | inl e ↦
          let none_left : n - k ≡ 0 = ground arith in
          rw e (all ∙ ap (λ j. take k (window b) ++ take j (drop (b.optr + k) b.mem)) none_left)
      | inr e ↦
          let left : n - k ≡ b.iptr - (b.optr + k) = omega arith in
          rw e (all ∙ ap (λ j. take k (window b) ++ take j (drop (b.optr + k) b.mem)) left)
    ]

-- The buffer is drained by a write of a part of it exactly when the part is all that was left.
pub is_drained-sent : (b : Buffer) (k : ℕ) → is_drained (sent b k) ≡ (b.optr + k == b.iptr)
unfolding sent
is_drained-sent b k = ground arith
