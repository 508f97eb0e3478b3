-- ===== src/Cksum/Laws.antt =====
-- libfree/in_cksum.c: the checksum against the sum, and packets that carry it.
use unpv13e.Base.{
  ℕ, ◌+◌, ◌-◌, ◌*◌, ◌/◌, ◌%◌, ◌^◌, ◌≤◌, ◌<◌, ◌≡◌, ◌⊎◌, refl, subst, ◌∙◌, List, [], ◌∷◌, ◌++◌, arith,
  length, length-append,
}
use unpv13e.Cksum.{word, add_words, add_carries, in_cksum}
use unpv13e.Cksum.Sum.{
  total, AllBytes, total_le, add_words_lem, total-append, Folded, add_carries-Folded,
}

-- The most bytes for which the accumulator cannot overflow. A packet has 65535 at most.
abbrev pub max_len : ℕ
max_len = 131070

total_fits : (bs : List ℕ) → AllBytes bs → length bs ≤ max_len → total bs < 2 ^ 32
total_fits bs h n = omega (arith, total_le bs h)

-- For up to 131070 bytes the checksum is the complement of the sum of the words, folded to 16 bits:
-- of the number from 0 to 65535 that is the sum modulo 65535, with 0 for a sum of 0 alone.
pub in_cksum-Folded :
    (bs : List ℕ)
    → AllBytes bs
    → length bs ≤ max_len
    → (f : ℕ) × (in_cksum bs ≡ 65535 - f) × Folded (total bs) f
unfolding in_cksum
in_cksum-Folded bs h n =
    let fits : total bs < 2 ^ 32 = total_fits bs h n in
    let sum : add_words 0 bs ≡ total bs = add_words_lem 0 bs (omega arith) ∙ omega arith in
    (add_carries (total bs) % 2 ^ 16, rw sum (omega arith), add_carries-Folded (total bs) fits)

pub AllBytes-append : (xs ys : List ℕ) → AllBytes xs → AllBytes ys → AllBytes (xs ++ ys)
unfolding AllBytes
AllBytes-append [] ys h k = k
AllBytes-append (x ∷ xs) ys h k = (h.0, AllBytes-append xs ys h.1 k)

word_bytes : (a b : ℕ) (bs : List ℕ) → a < 256 → b < 256 → AllBytes bs → AllBytes (a ∷ b ∷ bs)
unfolding AllBytes
word_bytes a b bs ha hb h = (ha, (hb, h))

total-word : (a b : ℕ) (bs : List ℕ) → total (a ∷ b ∷ bs) ≡ word a b + total bs
unfolding total
total-word a b bs = refl

-- The sum of a packet with a word of its own behind a whole front.
total_around :
    (n a b : ℕ) (front back : List ℕ)
    → length front ≡ 2 * n
    → total (front ++ (a ∷ b ∷ back)) ≡ total front + total back + word a b
total_around n a b front back e =
    omega (arith, total-append n front (a ∷ b ∷ back) e, total-word a b back)

-- The folded sum of a packet with a word of its own.
Folded-around :
    (n a b : ℕ) (front back : List ℕ)
    → AllBytes front
    → AllBytes back
    → a < 256
    → b < 256
    → length front ≡ 2 * n
    → length front + 2 + length back ≤ max_len
    → (f : ℕ) × (in_cksum (front ++ (a ∷ b ∷ back)) ≡ 65535 - f)
      × Folded (total front + total back + word a b) f
Folded-around n a b front back hf hb ha hb' e len =
    subst (λ s. (f : ℕ) × (in_cksum (front ++ (a ∷ b ∷ back)) ≡ 65535 - f) × Folded s f)
      (total_around n a b front back e)
      (in_cksum-Folded (front ++ (a ∷ b ∷ back))
        (AllBytes-append front _ hf (word_bytes a b back ha hb' hb))
        (omega (arith, length-append front (a ∷ b ∷ back))))

-- Where a checksum is put in, the sum folds to 65535.
verified :
    (s c f g : ℕ)
    → c ≡ 65535 - f
    → Folded (s + word 0 0) f
    → Folded (s + word (c % 256) (c / 256)) g
    → g ≡ 65535
verified s c f g e p q = ground (arith, p.small, p.same, p.zero_iff, q.small, q.same, q.zero_iff)

same_fold :
    (s x y f g : ℕ)
    → Folded (s + x) f
    → Folded (s + y) g
    → x ≤ 65535
    → y ≤ 65535
    → f ≡ g
    → (x ≡ y) ⊎ ((x ≡ 0) × (y ≡ 65535)) ⊎ ((x ≡ 65535) × (y ≡ 0))
same_fold s x y f g p q hx hy e = ground (arith, p.same, q.same)

-- A packet with a zero where its checksum is to be, at a whole number of words from its start, that is
-- not longer than the bound: with the checksum put there, the whole sums to 0.
pub in_cksum-verifies :
    (n : ℕ) (front back : List ℕ)
    → AllBytes front
    → AllBytes back
    → length front ≡ 2 * n
    → length front + 2 + length back ≤ max_len
    → let c = in_cksum (front ++ (0 ∷ 0 ∷ back)) in
      in_cksum (front ++ (c % 256 ∷ c / 256 ∷ back)) ≡ 0
in_cksum-verifies n front back hf hb e len =
    let c = in_cksum (front ++ (0 ∷ 0 ∷ back)) in
    let (f, v, p) = Folded-around n 0 0 front back hf hb (omega arith) (omega arith) e len in
    let small : c ≤ 65535 = omega (arith, v) in
    let (g, v', q) =
      Folded-around n (c % 256) (c / 256) front back hf hb (omega arith) (omega arith) e len in
    v' ∙ omega (arith, verified (total front + total back) c f g (omega (arith, v)) p q)

-- Two packets that differ in one word alone have one checksum only where one of the words is 0 and
-- the other 65535.
pub in_cksum-detects :
    (n a b a' b' : ℕ) (front back : List ℕ)
    → AllBytes front
    → AllBytes back
    → a < 256
    → b < 256
    → a' < 256
    → b' < 256
    → length front ≡ 2 * n
    → length front + 2 + length back ≤ max_len
    → in_cksum (front ++ (a ∷ b ∷ back)) ≡ in_cksum (front ++ (a' ∷ b' ∷ back))
    → (word a b ≡ word a' b')
      ⊎ ((word a b ≡ 0) × (word a' b' ≡ 65535))
      ⊎ ((word a b ≡ 65535) × (word a' b' ≡ 0))
in_cksum-detects n a b a' b' front back hf hb ha hb1 ha' hb1' e len eq =
    let (f, v, p) = Folded-around n a b front back hf hb ha hb1 e len in
    let (g, v', q) = Folded-around n a' b' front back hf hb ha' hb1' e len in
    same_fold (total front + total back) (word a b) (word a' b') f g p q (omega arith) (omega arith)
      (omega (arith, v, v', eq, p.small, q.small))
