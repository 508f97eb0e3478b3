-- ===== src/Uno/Draw/Dealt.antt =====
-- tcpcliserv/final_server.c: the cards of the stack and the hands, and what one card that is drawn
-- leaves of them.
use unpv13e.Base.{
  ℕ, suc, ◌≤◌, ◌<◌, ◌≡◌, ap, ◌∙◌, true, false, Option, some, ◌==◌, arith, Bool-cases, Option-cases,
  inl, inr,
}
use unpv13e.Uno.Arrays.{update, count_below, count_on}
use unpv13e.Uno.Turn.{taken}
use unpv13e.Uno.Game.{Game, tell, drawn}
use unpv13e.Uno.Draw.{increment, draw_top, draw_one, replenish}

-- The cards of the stack and of the hands are different ones, and each player's count is right.
pub record IsDealt (g : Game) : Type 0 where
  pub within : g.card_num ≤ 108
  pub cards : (i : ℕ) → i < g.card_num → g.card_seq i < 108
  pub once : (i j : ℕ) → i < g.card_num → j < g.card_num → g.card_seq i ≡ g.card_seq j → i ≡ j
  pub free : (i s : ℕ) → i < g.card_num → g.hand s (g.card_seq i) ≡ false
  pub apart : (s t c : ℕ) → g.hand s c ≡ true → g.hand t c ≡ true → s ≡ t
  pub counted : (s n : ℕ) → g.hand_num s ≡ some n → count_below 108 (g.hand s) ≡ n

module _ (used : ℕ → Option ℕ) (w : ℕ) (g : Game) (n : ℕ) where
  -- The state after the top card of a stack of `n + 1` has gone to the seat.
  abbrev pub drawn_from : Game
  drawn_from = record (tell (used w) (drawn (g.card_seq n)) g) {
    hand = update g.hand w (update (g.hand w) (g.card_seq n) true);
    hand_num = update g.hand_num w (increment (g.hand_num w));
    card_num = n;
    is_uno = update g.is_uno w false;
  }

  module _ (top : g.card_num ≡ suc n) (d : IsDealt g) where
    pub drawn_free :
        (i s : ℕ)
        → i < n
        → update g.hand w (update (g.hand w) (g.card_seq n) true) s (g.card_seq i) ≡ false
    drawn_free i s h = elim (Bool-cases (g.card_seq i == g.card_seq n)) [
      | inl e ↦ absurd (omega (arith, d.once i n (omega arith) (omega arith) (ground (arith, e))))
      | inr ne ↦ ground (arith, ne, d.free i s (omega arith), d.free i w (omega arith))
    ]

    pub drawn_apart :
        (s t c : ℕ)
        → update g.hand w (update (g.hand w) (g.card_seq n) true) s c ≡ true
        → update g.hand w (update (g.hand w) (g.card_seq n) true) t c ≡ true
        → s ≡ t
    drawn_apart s t c hs ht = ground (
      arith,
      d.apart s t c,
      d.free n s (omega arith),
      d.free n t (omega arith),
      ap (g.hand s),
      hs,
      ht,
    )

    drawn_counted :
        (s m : ℕ)
        → taken (g.hand_num w) ≡ true
        → update g.hand_num w (increment (g.hand_num w)) s ≡ some m
        → count_below 108 (update g.hand w (update (g.hand w) (g.card_seq n) true) s) ≡ m
    drawn_counted s m on e = elim (Bool-cases (s == w)) [
      | inl at ↦ elim (Option-cases (g.hand_num w)) [
        | inl out ↦ absurd (ground (arith, out, on))
        | inr (k, has) ↦ ground (
          arith,
          at,
          has,
          e,
          d.counted w k has,
          count_on 108 (g.hand w) (g.card_seq n) (d.cards n (omega arith))
              (d.free n w (omega arith)),
        )
      ]
      | inr off ↦ rw off (d.counted s m (ground (arith, off, e)))
    ]

    pub drawn_from-IsDealt : taken (g.hand_num w) ≡ true → IsDealt drawn_from
    unfolding tell
    drawn_from-IsDealt on = record {
      within = omega (arith, d.within);
      cards = λ i h. d.cards i (omega arith);
      once = λ i j hi hj e. d.once i j (omega arith) (omega arith) e;
      free = λ i s h. drawn_free i s h;
      apart = λ s t c hs ht. drawn_apart s t c hs ht;
      counted = λ s m e. drawn_counted s m on e;
    }

pub replenish_lem :
    (rand : ℕ → ℕ) (used : ℕ → Option ℕ) (g : Game) (n : ℕ)
    → g.card_num ≡ suc n
    → replenish rand used g ≡ g
unfolding replenish
replenish_lem rand used g n e = ground (arith, e)

-- What a call of `draw_one` with cards left comes to.
pub draw_one_lem :
    (rand : ℕ → ℕ) (used : ℕ → Option ℕ) (w : ℕ) (g : Game) (n : ℕ)
    → g.card_num ≡ suc n
    → draw_one rand used w g ≡ some (drawn_from used w g n)
unfolding draw_one draw_top
draw_one_lem rand used w g n e =
    ap (λ h. draw_top used w h h.card_num) (replenish_lem rand used g n e)
    ∙ ap (draw_top used w g) e
