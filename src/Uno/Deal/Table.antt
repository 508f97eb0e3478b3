-- ===== src/Uno/Deal/Table.antt =====
-- tcpcliserv/final_server.c: the card that is turned up at the start of a game.
use unpv13e.Base.{
  ℕ, zero, suc, ◌+◌, ◌-◌, ◌≤◌, ◌<◌, ◌≡◌, ◌≢◌, refl, Bool, true, false, Option, none, some, ◌==◌,
  ltb, arith, Bool-cases, inl, inr,
}
use unpv13e.Uno.Arrays.{update, count_below, count_on, count-le}
use unpv13e.Uno.Cards.{cards}
use unpv13e.Uno.Game.{Game}
use unpv13e.Uno.Draw.Dealt.{IsDealt}
use unpv13e.Uno.Deal.{turn_up, table_cards}

-- The card on the table is not wild, has its own colour, and is in no hand and not on the stack.
pub record TurnedUp (k : ℕ) (g g' : Game) : Type 0 where
  pub dealt : IsDealt g'
  pub not_wild : g'.table_card < 100
  pub colour : g'.colour ≡ (cards g'.table_card).colour
  pub counts : (s : ℕ) → g'.hand_num s ≡ g.hand_num s
  pub hands : (s c : ℕ) → g'.hand s c ≡ g.hand s c
  pub nowhere : (s : ℕ) → g'.hand s g'.table_card ≡ false
  pub unseen : (i : ℕ) → i < g'.card_num → g'.card_seq i ≢ g'.table_card
  pub few : g.card_num ≤ g'.card_num + k
  pub players : g'.player_num ≡ g.player_num
  pub turn : g'.turn ≡ g.turn
  pub call : g'.have_uno ≡ g.have_uno

abbrev pub UpOr : ℕ → Game → Option Game → Type 0
UpOr k g none = ⊥
UpOr k g (some g') = TurnedUp k g g'

turn_up-IsDealt : (g : Game) → IsDealt g → IsDealt (turn_up g)
unfolding turn_up
turn_up-IsDealt g d = record {
  within = omega (arith, d.within);
  cards = λ i h. d.cards i (omega arith);
  once = λ i j hi hj e. d.once i j (omega arith) (omega arith) e;
  free = λ i s h. d.free i s (omega arith);
  apart = d.apart;
  counted = d.counted;
}

turn_up-TurnedUp :
    (g : Game)
    → 0 < g.card_num
    → IsDealt g
    → (turn_up g).table_card < 100
    → TurnedUp 1 g (turn_up g)
unfolding turn_up
turn_up-TurnedUp g h d low = record {
  dealt = turn_up-IsDealt g d;
  not_wild = low;
  colour = refl;
  counts = λ s. refl;
  hands = λ s c. refl;
  nowhere = λ s. d.free (g.card_num - 1) s (omega arith);
  unseen = λ i lt e. omega (arith, d.once i (g.card_num - 1) (omega arith) (omega arith) e);
  few = omega arith;
  players = refl;
  turn = refl;
  call = refl;
}

later : (k : ℕ) (g : Game) (o : Option Game) → UpOr k (turn_up g) o → UpOr (suc k) g o
unfolding turn_up
later k g none u = u
later k g (some g') u = record {
  dealt = u.dealt;
  not_wild = u.not_wild;
  colour = u.colour;
  counts = u.counts;
  hands = u.hands;
  nowhere = u.nowhere;
  unseen = u.unseen;
  few = omega (arith, u.few);
  players = u.players;
  turn = u.turn;
  call = u.call;
}

more : (k : ℕ) (g : Game) (o : Option Game) → UpOr 1 g o → UpOr (suc k) g o
more k g none u = u
more k g (some g') u = record {
  dealt = u.dealt;
  not_wild = u.not_wild;
  colour = u.colour;
  counts = u.counts;
  hands = u.hands;
  nowhere = u.nowhere;
  unseen = u.unseen;
  few = omega (arith, u.few);
  players = u.players;
  turn = u.turn;
  call = u.call;
}

-- The marks are the wild cards that were turned up: none of them is still on the stack.
abbrev pub Marked : (ℕ → Bool) → Game → Type 0
Marked p g = (i : ℕ) → i < g.card_num → 100 ≤ g.card_seq i → p (g.card_seq i - 100) ≡ false

mark :
    (p : ℕ → Bool) (g : Game)
    → 0 < g.card_num
    → IsDealt g
    → 100 ≤ g.card_seq (g.card_num - 1)
    → Marked p g
    → Marked (update p (g.card_seq (g.card_num - 1) - 100) true) (turn_up g)
unfolding turn_up
mark p g h d high m i lt hi = elim (Bool-cases (g.card_seq i == g.card_seq (g.card_num - 1))) [
  | inl e ↦
      absurd
        (omega (arith, d.once i (g.card_num - 1) (omega arith) (omega arith) (ground (arith, e))))
  | inr ne ↦ ground (arith, ne, m i (omega arith) hi)
]

wild : (g : Game) → ltb (turn_up g).table_card 100 ≡ false → 100 ≤ g.card_seq (g.card_num - 1)
unfolding turn_up
wild g h = ground arith

left :
    (p : ℕ → Bool) (g : Game) (c : ℕ)
    → count_below 8 (update p (c - 100) true) ≡ suc (count_below 8 p)
    → 9 ≤ count_below 8 p + g.card_num
    → 9 ≤ count_below 8 (update p (c - 100) true) + (turn_up g).card_num
unfolding turn_up
left p g c e h = omega (arith, e, h)

pub table_cards-UpOr :
    (fuel k : ℕ) (p : ℕ → Bool) (g : Game)
    → k + count_below 8 p ≡ 9
    → 9 ≤ count_below 8 p + fuel
    → 9 ≤ count_below 8 p + g.card_num
    → IsDealt g
    → Marked p g
    → UpOr k g (table_cards fuel g)
unfolding table_cards
table_cards-UpOr zero k p g e h hc d m = absurd (omega (arith, count-le 8 p))
table_cards-UpOr (suc fuel) zero p g e h hc d m = absurd (omega (arith, count-le 8 p))
table_cards-UpOr (suc fuel) (suc k) p g e h hc d m =
    elim (Bool-cases (ltb (turn_up g).table_card 100)) [
      | inl low ↦ rw low (
          more k g (some (turn_up g))
            (turn_up-TurnedUp g (omega (arith, count-le 8 p)) d (ground (arith, low))))
      | inr high ↦
          let c = g.card_seq (g.card_num - 1) in
          let top = wild g high in
          let lt = d.cards (g.card_num - 1) (omega (arith, count-le 8 p)) in
          let one =
            count_on 8 p (c - 100) (omega (arith, top, lt))
              (m (g.card_num - 1) (omega (arith, count-le 8 p)) top) in
          rw high (
            later k g (table_cards fuel (turn_up g)) (
              table_cards-UpOr fuel k (update p (c - 100) true) (turn_up g) (omega (arith, one, e))
                (omega (arith, one, h)) (left p g c one hc) (turn_up-IsDealt g d)
                (mark p g (omega (arith, count-le 8 p)) d top m)))
    ]

-- With nine cards on the stack a card that is not wild is turned up, with no more than nine cards.
pub table_cards-up : (g : Game) → 9 ≤ g.card_num → IsDealt g → UpOr 9 g (table_cards g.card_num g)
unfolding count_below
table_cards-up g h d =
    table_cards-UpOr g.card_num 9 (λ x. false) g refl (omega arith) (omega arith) d
      (λ i lt hi. refl)
