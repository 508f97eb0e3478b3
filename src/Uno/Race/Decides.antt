-- ===== src/Uno/Race/Decides.antt =====
-- tcpcliserv/final_server.c: what the calls of "uno" come to.
use unpv13e.Base.{
  ℕ, suc, ◌+◌, ◌-◌, ◌≤◌, ◌<◌, ◌≡◌, ◌≢◌, refl, sym, subst, ◌∙◌, true, false, Option, none, some,
  ltb_ℤ, ◌==◌, arith, Bool-cases, inl, inr, ◌⊎◌,
}
use unpv13e.Uno.Turn.{taken}
use unpv13e.Uno.Game.{Game, tell, tell_players}
use unpv13e.Uno.Draw.{give_card_to_player}
use unpv13e.Uno.Draw.Dealt.{IsDealt, drawn_from, draw_one_lem}
use unpv13e.Uno.Draw.Sound.{Given, give_card_to_player-Given, give_step}
use unpv13e.Uno.Race.{fastest, called, too_late, resolved}
use unpv13e.Uno.Race.Order.{Candidate, fastest-IsFirst}

-- Some seat that is looked at was earlier than `h`.
abbrev pub Beaten : ℕ → Game → Type 0
Beaten h g = (j : ℕ) × (j < 10) × Candidate j g × (ltb_ℤ (g.time_stamp j) (g.time_stamp h) ≡ true)

-- The player is safe, with the hand as before; or two cards have gone to the hand.
abbrev pub Settled : ℕ → Game → Option Game → Type 0
Settled h g none = ⊥
Settled h g (some g') =
    ((¬ Beaten h g) × (g'.is_uno h ≡ true) × (g'.hand_num ≡ g.hand_num) × (g'.hand ≡ g.hand))
    ⊎ (Beaten h g × ((k : ℕ) → g.hand_num h ≡ some k → g'.hand_num h ≡ some (k + 2)))

punished_two :
    (h f : ℕ) (used : ℕ → Option ℕ) (g : Game) (o : Option Game)
    → Beaten h g
    → Given 2 h g o
    → Settled h g (too_late h f used o)
unfolding too_late tell_players
punished_two h f used g none b a = a
punished_two h f used g (some g') b a = inr (b, λ k e. a.more k e)

-- Where somebody has called "uno" for a player `h` who plays, and two cards are on the stack: the
-- player is safe exactly where nobody who is looked at, seat 0 or a player, was earlier, so a tie is
-- the player's, and nothing else of the hands changes; else the player gets two cards.
pub resolved-Settled :
    (rand : ℕ → ℕ → ℕ) (used : ℕ → Option ℕ) (g : Game) (h : ℕ)
    → IsDealt g
    → h < 10
    → taken (g.hand_num h) ≡ true
    → 2 ≤ g.card_num
    → Settled h g (resolved rand used g (some h))
unfolding resolved called tell_players
resolved-Settled rand used g h d lt on two =
    let first = fastest-IsFirst h g in
    elim (Bool-cases (fastest h g == h)) [
      | inl safe ↦ rw safe (
          inl (
            λ (j, jlt, c, earlier). absurd (ground (arith, safe, first.least j jlt c, earlier)),
            ground arith,
            refl,
            refl,
          ))
      | inr late ↦ rw late (
          punished_two h (fastest h g) used g (give_card_to_player rand used h 2 g)
            (
              fastest h g,
              first.below,
              first.one,
              first.tie lt (ground (arith, on)) (λ e. ground (arith, late, e)),
            )
            (give_card_to_player-Given rand used h 2 g d on two))
    ]

-- The empty seat has got the two cards on the top of the stack, and counts as a player with one.
abbrev pub Revived : ℕ → Game → Option Game → Type 0
Revived h g none = ⊥
Revived h g (some g') =
    (g'.hand_num h ≡ some 1)
    × (g'.card_num + 2 ≡ g.card_num)
    × ((i : ℕ) → g'.card_num ≤ i → i < g.card_num → g'.hand h (g.card_seq i) ≡ true)
    × ((c : ℕ) → g.hand h c ≡ true → g'.hand h c ≡ true)

-- Such a seat is not taken for the fastest, except for seat 0, which the search starts with.
left-late : (g : Game) (h : ℕ) → g.hand_num h ≡ none → h ≢ 0 → (fastest h g == h) ≡ false
left-late g h left ne = elim (Bool-cases (fastest h g == h)) [
  | inl e ↦
      let at : fastest h g ≡ h = ground (arith, e) in
      let c : Candidate h g = subst (λ f. Candidate f g) at (fastest-IsFirst h g).one in
      absurd (ground (arith, c, left, ne))
  | inr e ↦ e
]

module _ (used : ℕ → Option ℕ) (h : ℕ) (g : Game) where
  abbrev two_drawn : ℕ → Game
  two_drawn n = drawn_from used h (drawn_from used h g (suc n)) n

  two_drawn-Revived :
      (n : ℕ) → g.card_num ≡ suc (suc n) → g.hand_num h ≡ none → Revived h g (some (two_drawn n))
  unfolding tell
  two_drawn-Revived n top left = (
    ground (arith, left),
    omega (arith, top),
    λ i lo hi. elim (Bool-cases (i == n)) [
      | inl e ↦ let at : i ≡ n = ground (arith, e) in rw at (ground arith)
      | inr e ↦ let at : i ≡ suc n = ground (arith, e, top) in rw at (ground arith)
    ],
    λ c e. ground (arith, e),
  )

  late-Revived : (f : ℕ) (o : Option Game) → Revived h g o → Revived h g (too_late h f used o)
  unfolding too_late tell_players
  late-Revived f none r = r
  late-Revived f (some g') r = r

-- Where the player for whom was called, at any seat but 0, has left since: whoever is fastest, the two
-- cards on the top of the stack go to the seat that was left, which then counts as a player with one
-- card.
pub resolved_revives :
    (rand : ℕ → ℕ → ℕ) (used : ℕ → Option ℕ) (g : Game) (h : ℕ)
    → 2 ≤ g.card_num
    → g.hand_num h ≡ none
    → h ≢ 0
    → Revived h g (resolved rand used g (some h))
unfolding resolved give_card_to_player
resolved_revives rand used g h two left ne =
    let n = g.card_num - 2 in
    let top : g.card_num ≡ suc (suc n) = omega arith in
    let g1 = drawn_from used h g (suc n) in
    let step1 = give_step rand used h 1 g g1 (draw_one_lem (rand 1) used h g (suc n) top) in
    let g2 = drawn_from used h g1 n in
    let step2 = give_step rand used h 0 g1 g2 (draw_one_lem (rand 0) used h g1 n refl) in
    rw (left-late g h left ne) (
      subst (λ o. Revived h g (too_late h (fastest h g) used o)) (sym (step1 ∙ step2))
        (late-Revived used h g (fastest h g) _ (two_drawn-Revived used h g n top left)))
