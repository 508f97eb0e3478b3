-- ===== src/Gai/Nameinfo/Decimal.antt =====
-- libgai/gn_ipv46.c and libgai/ga_serv.c: a port as text.
use unpv13e.Base.{
  ℕ, zero, suc, ◌+◌, ◌-◌, ◌*◌, ◌/◌, ◌%◌, ◌^◌, ◌<◌, ◌≤◌, ◌≡◌, refl, ◌∙◌, [], ◌∷◌, ◌++◌, true, ltb,
  arith, Bool-cases, inl, inr,
}
use unpv13e.Gai.Types.{Str, is_digit}
use unpv13e.Gai.Serv.{atoi_from, atoi}
use unpv13e.Gai.Nameinfo.{digits, decimal}

AllDigits : Str → Type 0
AllDigits [] = Unit
AllDigits (c ∷ s) = (is_digit c ≡ true) × AllDigits s

AllDigits-append : (s t : Str) → AllDigits s → AllDigits t → AllDigits (s ++ t)
unfolding AllDigits
AllDigits-append [] t h k = k
AllDigits-append (c ∷ s) t (h, hs) k = (h, AllDigits-append s t hs k)

digit : (n : ℕ) → is_digit (b'0' + n % 10) ≡ true
digit n = ground arith

digits-AllDigits : (k n : ℕ) → AllDigits (digits k n)
unfolding AllDigits digits
digits-AllDigits zero n = tt
digits-AllDigits (suc k) n = elim (Bool-cases (ltb n 10)) [
  | inl e ↦ rw e (digit n, tt)
  | inr e ↦ rw e (
      AllDigits-append (digits k (n / 10)) ((b'0' + n % 10) ∷ []) (digits-AllDigits k (n / 10))
        (digit n, tt))
]

atoi_from-append :
    (acc c : ℕ) (s : Str)
    → AllDigits s
    → is_digit c ≡ true
    → atoi_from acc (s ++ c ∷ []) ≡ atoi_from acc s * 10 + (c - b'0')
unfolding AllDigits atoi_from
atoi_from-append acc c [] h k = rw k refl
atoi_from-append acc c (d ∷ s) (h, hs) k = rw h (atoi_from-append (acc * 10 + (d - b'0')) c s hs k)

below_ten : (k n : ℕ) → n < 10 ^ suc k → n / 10 < 10 ^ k
below_ten k n h = omega (arith, h)

two_digits : (k n : ℕ) → n < 10 ^ suc k → 10 ≤ n → 0 < k
two_digits zero n h t = absurd (omega (arith, h, t))
two_digits (suc k) n h t = omega arith

atoi_one : (n : ℕ) → n < 10 → atoi_from 0 ((b'0' + n % 10) ∷ []) ≡ n
unfolding atoi_from
atoi_one n h = rw (digit n) (omega arith)

atoi_more :
    (k n : ℕ)
    → atoi_from 0 (digits k (n / 10)) ≡ n / 10
    → atoi_from 0 (digits k (n / 10) ++ (b'0' + n % 10) ∷ []) ≡ n
atoi_more k n front =
    let step =
      atoi_from-append 0 (b'0' + n % 10) (digits k (n / 10)) (digits-AllDigits k (n / 10))
        (digit n) in
    step ∙ omega (arith, front)

digits-atoi : (k n : ℕ) → n < 10 ^ k → 0 < k → atoi_from 0 (digits k n) ≡ n
unfolding digits
digits-atoi zero n h p = absurd (omega arith)
digits-atoi (suc k) n h p = elim (Bool-cases (ltb n 10)) [
  | inl e ↦ rw e (atoi_one n (ground (arith, e)))
  | inr e ↦
      let t : 10 ≤ n = ground (arith, e) in
      rw e (atoi_more k n (digits-atoi k (n / 10) (below_ten k n h) (two_digits k n h t)))
]

-- A port as getnameinfo writes it in decimal is what ga_serv reads back with `atoi`.
pub decimal-atoi : (port : ℕ) → port < 65536 → atoi (decimal port) ≡ port
unfolding decimal
decimal-atoi port h = digits-atoi 5 port (omega arith) (omega arith)
