-- ===== src/Uno/Draw/Sound.antt =====
-- tcpcliserv/final_server.c: the cards that GiveCardToPlayer gives to a player.
use unpv13e.Base.{
  ℕ, zero, suc, ◌+◌, ◌-◌, ◌≤◌, ◌<◌, ◌≡◌, ◌≢◌, refl, sym, ap, subst, ◌∙◌, true, Option, none, some,
  ◌==◌, ltb, arith, Bool-cases, Option-cases, inl, inr, ◌⊎◌,
}
use unpv13e.Uno.Turn.{taken}
use unpv13e.Uno.Game.{Game, tell}
use unpv13e.Uno.Draw.{draw_one, give_card_to_player}
use unpv13e.Uno.Draw.Dealt.{IsDealt, drawn_from, drawn_from-IsDealt, draw_one_lem}

Nat-split : (i n : ℕ) → (i < n) ⊎ (n ≤ i)
Nat-split i n = elim (Bool-cases (ltb i n)) [
  | inl e ↦ inl (ground (arith, e))
  | inr e ↦ inr (ground (arith, e))
]

-- The seats that play go on playing.
abbrev pub SamePlayers : Game → Game → Type 0
SamePlayers g g' =
    ((s : ℕ) → taken (g'.hand_num s) ≡ taken (g.hand_num s))
    × (g'.whose_round ≡ g.whose_round)
    × (g'.turn ≡ g.turn)
    × (g'.player_num ≡ g.player_num)

-- As many cards as were asked for have gone from the top of the stack to the seat: the stack is as
-- before below them, the hand is what it was and these cards, and all other hands and counts are
-- as before.
pub record Gives (how_many w : ℕ) (g g' : Game) : Type 0 where
  pub dealt : IsDealt g'
  pub players : SamePlayers g g'
  pub call : g'.have_uno ≡ g.have_uno
  pub taken_off : g'.card_num + how_many ≡ g.card_num
  pub more : (k : ℕ) → g.hand_num w ≡ some k → g'.hand_num w ≡ some (k + how_many)
  pub stack : (i : ℕ) → g'.card_seq i ≡ g.card_seq i
  pub kept : (c : ℕ) → g.hand w c ≡ true → g'.hand w c ≡ true
  pub top_cards : (i : ℕ) → g'.card_num ≤ i → i < g.card_num → g'.hand w (g.card_seq i) ≡ true
  pub only :
      (c : ℕ)
      → g'.hand w c ≡ true
      → (g.hand w c ≡ true) ⊎ ((i : ℕ) × (g'.card_num ≤ i) × (i < g.card_num) × (g.card_seq i ≡ c))
  pub others :
      (s : ℕ) → s ≢ w → (g'.hand_num s ≡ g.hand_num s) × ((c : ℕ) → g'.hand s c ≡ g.hand s c)

abbrev pub Given : ℕ → ℕ → Game → Option Game → Type 0
Given how_many w g none = ⊥
Given how_many w g (some g') = Gives how_many w g g'

drawn_from-Gives :
    (used : ℕ → Option ℕ) (w : ℕ) (g : Game) (n : ℕ)
    → g.card_num ≡ suc n
    → IsDealt g
    → taken (g.hand_num w) ≡ true
    → Gives 1 w g (drawn_from used w g n)
unfolding tell
drawn_from-Gives used w g n top d on = record {
  dealt = drawn_from-IsDealt used w g n top d on;
  players = (
    λ s. elim (Option-cases (g.hand_num w)) [
      | inl e ↦ ground (arith, e, on)
      | inr (k, e) ↦ ground (arith, e)
    ],
    refl,
    refl,
    refl,
  );
  call = refl;
  taken_off = omega (arith, top);
  more = λ k e. ground (arith, e);
  stack = λ i. refl;
  kept = λ c e. ground (arith, e);
  top_cards = λ i lo hi. let at : i ≡ n = omega (arith, top) in rw at (ground arith);
  only = λ c e. elim (Bool-cases (c == g.card_seq n)) [
    | inl at ↦ inr (n, omega arith, omega (arith, top), ground (arith, at))
    | inr off ↦ inl (ground (arith, off, e))
  ];
  others = λ s ne. (ground arith, λ c. ground arith);
}

none_given : (w : ℕ) (g : Game) → IsDealt g → Gives 0 w g g
none_given w g d = record {
  dealt = d;
  players = (λ s. refl, refl, refl, refl);
  call = refl;
  taken_off = omega arith;
  more = λ k e. e ∙ ap some (omega arith);
  stack = λ i. refl;
  kept = λ c e. e;
  top_cards = λ i lo hi. absurd (omega arith);
  only = λ c e. inl e;
  others = λ s ne. (refl, λ c. refl);
}

module _ {m w : ℕ} {g g' g'' : Game} (a : Gives 1 w g g') (b : Gives m w g' g'') where
  Gives-top : (i : ℕ) → g''.card_num ≤ i → i < g.card_num → g''.hand w (g.card_seq i) ≡ true
  Gives-top i lo hi = elim (Nat-split i g'.card_num) [
    | inl below ↦ subst (λ c. g''.hand w c ≡ true) (a.stack i) (b.top_cards i lo below)
    | inr above ↦ b.kept (g.card_seq i) (a.top_cards i above hi)
  ]

  Gives-only :
      (c : ℕ)
      → g''.hand w c ≡ true
      → (g.hand w c ≡ true) ⊎ ((i : ℕ) × (g''.card_num ≤ i) × (i < g.card_num) × (g.card_seq i ≡ c))
  Gives-only c e = elim (b.only c e) [
    | inl before ↦ elim (a.only c before) [
      | inl held ↦ inl held
      | inr (i, lo, hi, at) ↦ inr (i, omega (arith, b.taken_off), hi, at)
    ]
    | inr (i, lo, hi, at) ↦ inr (i, lo, omega (arith, a.taken_off), sym (a.stack i) ∙ at)
  ]

Given-then :
    (m w : ℕ) (g g' : Game) (o : Option Game)
    → Gives 1 w g g'
    → Given m w g' o
    → Given (suc m) w g o
Given-then m w g g' none a h = h
Given-then m w g g' (some g'') a b = record {
  dealt = b.dealt;
  players = (
    λ s. b.players.0 s ∙ a.players.0 s,
    b.players.1 ∙ a.players.1,
    b.players.2 ∙ a.players.2,
    b.players.3 ∙ a.players.3,
  );
  call = b.call ∙ a.call;
  taken_off = omega (arith, a.taken_off, b.taken_off);
  more = λ k e. b.more (k + 1) (a.more k e) ∙ ap some (omega arith);
  stack = λ i. b.stack i ∙ a.stack i;
  kept = λ c e. b.kept c (a.kept c e);
  top_cards = λ i lo hi. Gives-top a b i lo hi;
  only = λ c e. Gives-only a b c e;
  others = λ s ne.
      ((b.others s ne).0 ∙ (a.others s ne).0, λ c. (b.others s ne).1 c ∙ (a.others s ne).1 c);
}

pub give_step :
    (rand : ℕ → ℕ → ℕ) (used : ℕ → Option ℕ) (w m : ℕ) (g g' : Game)
    → draw_one (rand m) used w g ≡ some g'
    → give_card_to_player rand used w (suc m) g ≡ give_card_to_player rand used w m g'
unfolding give_card_to_player
give_step rand used w m g g' e = rw (e, give_card_to_player) refl

-- With as many cards on the stack as are asked for, a player who has not left gets just those that lie
-- on its top, and the stack below them stays: all counts and cards are right, no card is in two
-- places, and no other hand changes.
pub give_card_to_player-Given :
    (rand : ℕ → ℕ → ℕ) (used : ℕ → Option ℕ) (w how_many : ℕ) (g : Game)
    → IsDealt g
    → taken (g.hand_num w) ≡ true
    → how_many ≤ g.card_num
    → Given how_many w g (give_card_to_player rand used w how_many g)
unfolding give_card_to_player
give_card_to_player-Given rand used w zero g d on h = none_given w g d
give_card_to_player-Given rand used w (suc m) g d on h =
    let n = g.card_num - 1 in
    let top : g.card_num ≡ suc n = omega arith in
    let a = drawn_from-Gives used w g n top d on in
    subst (Given (suc m) w g)
      (sym (give_step rand used w m g _ (draw_one_lem (rand m) used w g n top)))
      (Given-then m w g _ (give_card_to_player rand used w m _) a (
        give_card_to_player-Given rand used w m (drawn_from used w g n) a.dealt (a.players.0 w ∙ on)
          (omega (arith, a.taken_off))))
