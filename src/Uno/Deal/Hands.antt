-- ===== src/Uno/Deal/Hands.antt =====
-- tcpcliserv/final_server.c: the hands after the cards are dealt.
use unpv13e.Base.{
  ℕ, zero, suc, ◌+◌, ◌-◌, ◌*◌, ◌≤◌, ◌<◌, ◌≡◌, ◌≢◌, refl, ◌∙◌, false, Option, none, some, ◌==◌,
  if◌then◌else◌, arith, Bool-cases, inl, inr, ◌⊎◌,
}
use unpv13e.Uno.Arrays.{count_below, count_on, count_all_off}
use unpv13e.Uno.Turn.{taken}
use unpv13e.Uno.Game.{Game}
use unpv13e.Uno.Draw.Dealt.{IsDealt, drawn_free, drawn_apart}
use unpv13e.Uno.Deal.{deal_one, deal_cards, deal_seat, deal_seats}

-- `k` cards have gone from the stack to the hand of seat `i`, which has no count yet.
pub record Dealing (k i : ℕ) (g g' : Game) : Type 0 where
  pub dealt : IsDealt g'
  pub counts : (s : ℕ) → g'.hand_num s ≡ g.hand_num s
  pub more : count_below 108 (g'.hand i) ≡ count_below 108 (g.hand i) + k
  pub others : (s c : ℕ) → s ≢ i → g'.hand s c ≡ g.hand s c
  pub taken_off : g'.card_num + k ≡ g.card_num

deal_one-Dealing :
    (i n : ℕ) (g : Game)
    → g.card_num ≡ suc n
    → IsDealt g
    → g.hand_num i ≡ none
    → Dealing 1 i g (deal_one i g)
unfolding deal_one
deal_one-Dealing i n g top d e =
    let m : n ≡ g.card_num - 1 = omega arith in
    let top' : g.card_num ≡ suc (g.card_num - 1) = omega arith in
    record {
      dealt = record {
        within = omega (arith, d.within);
        cards = λ j h. d.cards j (omega arith);
        once = λ j k hj hk same. d.once j k (omega arith) (omega arith) same;
        free = λ j s h. drawn_free (λ x. none) i g (g.card_num - 1) top' d j s h;
        apart = λ s t c hs ht. drawn_apart (λ x. none) i g (g.card_num - 1) top' d s t c hs ht;
        counted = λ s k h. elim (Bool-cases (s == i)) [
          | inl at ↦ absurd (ground (arith, at, e, h))
          | inr off ↦ rw off (d.counted s k h)
        ];
      };
      counts = λ s. refl;
      more = ground (
        arith,
        count_on 108 (g.hand i) (g.card_seq (g.card_num - 1)) (d.cards _ (omega arith))
            (d.free (g.card_num - 1) i (omega arith)),
      );
      others = λ s c ne. ground arith;
      taken_off = omega arith;
    }

deal_cards-Dealing :
    (k i : ℕ) (g : Game)
    → k ≤ g.card_num
    → IsDealt g
    → g.hand_num i ≡ none
    → Dealing k i g (deal_cards k i g)
unfolding deal_cards
deal_cards-Dealing zero i g h d e = record {
  dealt = d;
  counts = λ s. refl;
  more = omega arith;
  others = λ s c ne. refl;
  taken_off = omega arith;
}
deal_cards-Dealing (suc k) i g h d e =
    let a = deal_one-Dealing i (g.card_num - 1) g (omega arith) d e in
    let b =
      deal_cards-Dealing k i (deal_one i g) (omega (arith, a.taken_off)) a.dealt (a.counts i ∙ e) in
    record {
      dealt = b.dealt;
      counts = λ s. b.counts s ∙ a.counts s;
      more = omega (arith, a.more, b.more);
      others = λ s c ne. b.others s c ne ∙ a.others s c ne;
      taken_off = omega (arith, a.taken_off, b.taken_off);
    }

-- Seat `i` is as at the start: no count, and no cards.
abbrev pub Fresh : ℕ → Game → Type 0
Fresh i g = (g.hand_num i ≡ none) × ((c : ℕ) → g.hand i c ≡ false)

-- The seats of the first ten that are used have seven cards, the others no count.
abbrev pub Sevens : (ℕ → Option ℕ) → ℕ → Game → Type 0
Sevens used n g = (s : ℕ) → s < n → g.hand_num s ≡ (if taken (used s) then some 7 else none)

record Seat (i : ℕ) (g g' : Game) : Type 0 where
  dealt : IsDealt g'
  seven : g'.hand_num i ≡ some 7
  others : (s : ℕ) → s ≢ i → (g'.hand_num s ≡ g.hand_num s) × ((c : ℕ) → g'.hand s c ≡ g.hand s c)
  taken_off : g'.card_num + 7 ≡ g.card_num

deal_seat-Seat :
    (i : ℕ) (g : Game) → 7 ≤ g.card_num → IsDealt g → Fresh i g → Seat i g (deal_seat i g)
unfolding deal_seat
deal_seat-Seat i g h d (e, empty) =
    let a = deal_cards-Dealing 7 i g h d e in
    record {
      dealt = record {
        within = a.dealt.within;
        cards = a.dealt.cards;
        once = a.dealt.once;
        free = a.dealt.free;
        apart = a.dealt.apart;
        counted = λ s k f. elim (Bool-cases (s == i)) [
          | inl at ↦
              ground
                (arith, at, f, a.more, count_all_off 108 (g.hand i) (λ c (lt : c < 108). empty c))
          | inr off ↦ a.dealt.counted s k (ground (arith, off, f))
        ];
      };
      seven = ground arith;
      others = λ s ne. (ground (arith, a.counts s), λ c. a.others s c ne);
      taken_off = a.taken_off;
    }

pub record Hands (used : ℕ → Option ℕ) (i k : ℕ) (g g' : Game) : Type 0 where
  pub dealt : IsDealt g'
  pub sevens :
      (s : ℕ) → i ≤ s → s < i + k → g'.hand_num s ≡ (if taken (used s) then some 7 else none)
  pub others : (s : ℕ) → (s < i) ⊎ (i + k ≤ s) → g'.hand_num s ≡ g.hand_num s
  pub left : g.card_num ≤ g'.card_num + 7 * k

wider : (i k s : ℕ) → (s < i) ⊎ (i + suc k ≤ s) → (s < suc i) ⊎ (suc i + k ≤ s)
wider i k s (inl h) = inl (omega arith)
wider i k s (inr h) = inr (omega arith)

not_first : (i k s : ℕ) → (s < i) ⊎ (i + suc k ≤ s) → s ≢ i
not_first i k s (inl h) e = omega arith
not_first i k s (inr h) e = omega arith

pub deal_seats-Hands :
    (k i : ℕ) (used : ℕ → Option ℕ) (g : Game)
    → 7 * k ≤ g.card_num
    → IsDealt g
    → ((s : ℕ) → i ≤ s → Fresh s g)
    → Hands used i k g (deal_seats k i used g)
unfolding deal_seats
deal_seats-Hands zero i used g h d fresh = record {
  dealt = d;
  sevens = λ s lo hi. absurd (omega arith);
  others = λ s o. refl;
  left = omega arith;
}
deal_seats-Hands (suc k) i used g h d fresh = elim (Bool-cases (taken (used i))) [
  | inl on ↦
      let a = deal_seat-Seat i g (omega arith) d (fresh i (omega arith)) in
      let b =
        deal_seats-Hands k (suc i) used (deal_seat i g) (omega (arith, a.taken_off)) a.dealt
          (λ s lo.
            let o = a.others s (omega arith) in
            (o.0 ∙ (fresh s (omega arith)).0, λ c. o.1 c ∙ (fresh s (omega arith)).1 c)) in
      rw on (record {
        dealt = b.dealt;
        sevens = λ s lo hi. elim (Bool-cases (s == i)) [
          | inl at ↦ ground (arith, at, on, b.others i (inl (omega arith)), a.seven)
          | inr off ↦ b.sevens s (ground (arith, off)) (omega arith)
        ];
        others = λ s o. b.others s (wider i k s o) ∙ (a.others s (not_first i k s o)).0;
        left = omega (arith, a.taken_off, b.left);
      })
  | inr off ↦
      let b = deal_seats-Hands k (suc i) used g (omega arith) d (λ s lo. fresh s (omega arith)) in
      rw off (record {
        dealt = b.dealt;
        sevens = λ s lo hi. elim (Bool-cases (s == i)) [
          | inl at ↦
              ground (arith, at, off, b.others i (inl (omega arith)), (fresh i (omega arith)).0)
          | inr ne ↦ b.sevens s (ground (arith, ne)) (omega arith)
        ];
        others = λ s o. b.others s (wider i k s o);
        left = omega (arith, b.left);
      })
]
