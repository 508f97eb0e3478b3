-- ===== src/Uno/Play/Score.antt =====
-- tcpcliserv/final_server.c: the score of the winner.
use unpv13e.Base.{
  ℕ, zero, suc, ◌+◌, ◌≤◌, ◌<◌, ◌≡◌, refl, sym, ap, ◌∙◌, Bool, true, false, ◌&&◌, ◌||◌, Option,
  if◌then◌else◌, arith, Bool-cases, inl, inr,
}
use unpv13e.Uno.Arrays.{sum_below}
use unpv13e.Uno.Cards.{score, or_else}
use unpv13e.Uno.Turn.{taken}
use unpv13e.Uno.Game.{Game}
use unpv13e.Uno.Draw.Dealt.{IsDealt}
use unpv13e.Uno.Play.{hand_score, winner_score}

-- The cards of the first `n` seats that are used.
abbrev pub together : ℕ → (ℕ → Option ℕ) → (ℕ → ℕ → Bool) → ℕ → Bool
together zero used hand q = false
together (suc n) used hand q = together n used hand q || (taken (used n) && hand n q)

sum_add :
    (m : ℕ) (a b c : ℕ → ℕ)
    → ((q : ℕ) → q < m → a q + b q ≡ c q)
    → sum_below m a + sum_below m b ≡ sum_below m c
unfolding sum_below
sum_add zero a b c h = refl
sum_add (suc m) a b c h =
    omega (arith, sum_add m a b c (λ q lt. h q (omega arith)), h m (omega arith))

sum_mono : (m : ℕ) (a b : ℕ → ℕ) → ((q : ℕ) → q < m → a q ≤ b q) → sum_below m a ≤ sum_below m b
unfolding sum_below
sum_mono zero a b h = omega arith
sum_mono (suc m) a b h =
    omega (arith, sum_mono m a b (λ q lt. h q (omega arith)), h m (omega arith))

not_together :
    (n k : ℕ) (used : ℕ → Option ℕ) (hand : ℕ → ℕ → Bool) (q : ℕ)
    → ((s t c : ℕ) → hand s c ≡ true → hand t c ≡ true → s ≡ t)
    → n ≤ k
    → hand k q ≡ true
    → together n used hand q ≡ false
not_together zero k used hand q apart le on = refl
not_together (suc n) k used hand q apart le on =
    ground (arith, not_together n k used hand q apart (omega arith) on, apart n k q, on)

join_score :
    (p q r : ℕ → Bool)
    → ((x : ℕ) → (p x && q x) ≡ false)
    → ((x : ℕ) → r x ≡ (p x || q x))
    → hand_score p + hand_score q ≡ hand_score r
unfolding hand_score
join_score p q r apart union = sum_add 108 _ _ _ (λ x lt. ground (arith, apart x, union x))

no_score : hand_score (λ q. false) ≡ 0
unfolding hand_score sum_below
no_score = refl

seats_score :
    (n : ℕ) (used : ℕ → Option ℕ) (hand : ℕ → ℕ → Bool)
    → ((s t c : ℕ) → hand s c ≡ true → hand t c ≡ true → s ≡ t)
    → sum_below n (λ k. if taken (used k) then hand_score (hand k) else 0)
      ≡ hand_score (together n used hand)
unfolding sum_below
seats_score zero used hand apart = sym no_score
seats_score (suc n) used hand apart = elim (Bool-cases (taken (used n))) [
  | inl on ↦
      rw (seats_score n used hand apart, on)
        (join_score (together n used hand) (hand n) (together (suc n) used hand)
          (λ x. elim (Bool-cases (hand n x)) [
            | inl h ↦ rw (not_together n n used hand x apart (omega arith) h) refl
            | inr h ↦ ground (arith, h)
          ])
          (λ x. rw on refl))
  | inr off ↦
      rw (seats_score n used hand apart, off)
        (ap (λ z. hand_score (together n used hand) + z) (sym no_score)
          ∙ join_score (together n used hand) (λ x. false) (together (suc n) used hand)
              (λ x. ground arith) (λ x. rw off refl))
]

score_total : sum_below 108 (λ q. score q) ≡ 1240
unfolding sum_below score or_else
score_total = refl

hand_score-le : (p : ℕ → Bool) → hand_score p ≤ 1240
unfolding hand_score
hand_score-le p = omega (
  arith,
  score_total,
  sum_mono 108 (λ q. if p q then score q else 0) (λ q. score q) (λ q lt. ground arith),
)

-- Where no card is in two hands, the winner's score is that of the cards of the used seats, each
-- once, and so never more than 1240, that of the whole pack.
pub winner_score-le :
    (used : ℕ → Option ℕ) (g : Game)
    → IsDealt g
    → (winner_score used g ≡ hand_score (together 10 used g.hand)) × (winner_score used g ≤ 1240)
unfolding winner_score
winner_score-le used g d =
    let e = seats_score 10 used g.hand d.apart in
    (e, rw e (hand_score-le (together 10 used g.hand)))
