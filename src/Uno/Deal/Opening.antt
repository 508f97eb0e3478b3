-- ===== src/Uno/Deal/Opening.antt =====
-- tcpcliserv/final_server.c: the state of a game at its first round.
use unpv13e.Base.{
  ℕ, zero, suc, ◌+◌, ◌%◌, ◌≤◌, ◌<◌, ◌≡◌, ◌≢◌, refl, sym, ap, ◌∙◌, Bool, true, false, Option, none,
  some, ◌==◌, if◌then◌else◌, arith, Bool-cases, inl, inr,
}
use unpv13e.Uno.Arrays.{count_below, count_ext}
use unpv13e.Uno.Turn.{taken}
use unpv13e.Uno.Cards.{cards}
use unpv13e.Uno.Game.{Game, start_round}
use unpv13e.Uno.Shuffle.{shuffle-IsShuffled}
use unpv13e.Uno.Draw.Dealt.{IsDealt}
use unpv13e.Uno.Seated.{IsSeated}
use unpv13e.Uno.Deal.{
  before, deal_one, deal_cards, deal_seat, deal_seats, seat_number, first_round, opening,
}
use unpv13e.Uno.Deal.Hands.{Hands, deal_seats-Hands}
use unpv13e.Uno.Deal.Table.{TurnedUp, UpOr, table_cards-up}

before-IsDealt :
    (rand junk : ℕ → ℕ) (n : ℕ) (state : ℕ → ℕ) (total : ℕ)
    → IsDealt (before rand junk n state total)
unfolding before
before-IsDealt rand junk n state total =
    let s = shuffle-IsShuffled rand junk 108 in
    record {
      within = omega arith;
      cards = λ i h. s.below i h;
      once = λ i j hi hj e. s.once i j hi hj e;
      free = λ i t h. refl;
      apart = λ t u c ht hu. absurd (ground (arith, ht));
      counted = λ t k e. absurd (ground (arith, e));
    }

module _ (used : ℕ → Option ℕ) (n which : ℕ) where
  -- A seat is found for each number below that of the used seats.
  seat_number_lem :
      (k i j : ℕ)
      → i + k ≡ n
      → j ≡ count_below i (λ s. taken (used s))
      → j ≤ which
      → which < count_below n (λ s. taken (used s))
      → (seat_number k i j used which < n) × (taken (used (seat_number k i j used which)) ≡ true)
  unfolding seat_number count_below
  seat_number_lem zero i j e ej lo hi =
      let last : i ≡ n = omega arith in
      absurd (omega (arith, ap (λ m. count_below m (λ s. taken (used s))) last))
  seat_number_lem (suc k) i j e ej lo hi = elim (Bool-cases (taken (used i))) [
    | inl on ↦ elim (Bool-cases (j == which)) [
      | inl at ↦ rw (on, at) (omega arith, on)
      | inr ne ↦
          rw (on, ne)
            (seat_number_lem k (suc i) (suc j) (omega arith) (ground (arith, on, ej))
              (ground (arith, ne)) hi)
    ]
    | inr off ↦ rw off (seat_number_lem k (suc i) j (omega arith) (ground (arith, off, ej)) lo hi)
  ]

-- The opening of a game for the used seats.
pub record Opened (used : ℕ → Option ℕ) (player_num : ℕ) (g : Game) : Type 0 where
  pub dealt : IsDealt g
  pub seated : IsSeated g
  pub sevens : (s : ℕ) → s < 10 → g.hand_num s ≡ (if taken (used s) then some 7 else none)
  pub not_wild : g.table_card < 100
  pub colour : g.colour ≡ (cards g.table_card).colour
  pub nowhere : (s : ℕ) → g.hand s g.table_card ≡ false
  pub unseen : (i : ℕ) → i < g.card_num → g.card_seq i ≢ g.table_card
  pub enough : 29 ≤ g.card_num

taken_seven : (o o' : Option ℕ) → o' ≡ (if taken o then some 7 else none) → taken o' ≡ taken o
taken_seven none o' e = ground (arith, e)
taken_seven (some n) o' e = ground (arith, e)

first_round-IsDealt :
    (draw : ℕ) (used : ℕ → Option ℕ) (g : Game) → IsDealt g → IsDealt (first_round draw used g)
unfolding first_round start_round
first_round-IsDealt draw used g d = record {
  within = d.within;
  cards = d.cards;
  once = d.once;
  free = d.free;
  apart = d.apart;
  counted = d.counted;
}

first_round-IsSeated :
    (draw : ℕ) (used : ℕ → Option ℕ) (g : Game)
    → ((s : ℕ) → s < 10 → g.hand_num s ≡ (if taken (used s) then some 7 else none))
    → ((s : ℕ) → 10 ≤ s → g.hand_num s ≡ none)
    → g.turn ≡ 0
    → g.have_uno ≡ none
    → 0 < g.player_num
    → count_below 10 (λ s. taken (used s)) ≡ g.player_num
    → IsSeated (first_round draw used g)
unfolding first_round start_round count_below
first_round-IsSeated draw used g sevens outside t c pos count =
    let (lt, on) =
      seat_number_lem used 10 (draw % g.player_num) 10 0 0 refl (omega arith) (omega arith)
        (rw count (grind arith)) in
    record {
      seat = lt;
      plays = taken_seven _ _ (sevens _ lt) ∙ on;
      direction = omega (arith, t);
      players = count_ext 10 _ _ (λ s l. taken_seven (used s) (g.hand_num s) (sevens s l)) ∙ count;
      outside = λ s h. ap taken (outside s h);
      caller = λ h e. absurd (ground (arith, c, e));
    }

first_round-Opened :
    (draw player_num : ℕ) (used : ℕ → Option ℕ) (b g g' : Game)
    → Hands used 0 10 b g
    → TurnedUp 9 g g'
    → b.card_num ≡ 108
    → g.turn ≡ 0
    → g.have_uno ≡ none
    → g.player_num ≡ player_num
    → ((s : ℕ) → b.hand_num s ≡ none)
    → 0 < player_num
    → count_below 10 (λ s. taken (used s)) ≡ player_num
    → Opened used player_num (first_round draw used g')
unfolding first_round start_round
first_round-Opened draw player_num used b g g' h t e gt gc pn none_yet pos count = record {
  dealt = first_round-IsDealt draw used g' t.dealt;
  seated =
      first_round-IsSeated draw used g'
        (λ s lt. t.counts s ∙ h.sevens s (omega arith) (omega arith))
        (λ s le. t.counts s ∙ h.others s (inr (omega arith)) ∙ none_yet s) (t.turn ∙ gt)
        (t.call ∙ gc) (omega (arith, t.players)) (count ∙ sym pn ∙ sym t.players);
  sevens = λ s lt. t.counts s ∙ h.sevens s (omega arith) (omega arith);
  not_wild = t.not_wild;
  colour = t.colour;
  nowhere = t.nowhere;
  unseen = t.unseen;
  enough = omega (arith, t.few, h.left);
}

abbrev pub OpenedOr : (ℕ → Option ℕ) → ℕ → Option Game → Type 0
OpenedOr used player_num none = ⊥
OpenedOr used player_num (some g) = Opened used player_num g

first :
    (draw player_num : ℕ) (used : ℕ → Option ℕ) (b g : Game) (o : Option Game)
    → Hands used 0 10 b g
    → UpOr 9 g o
    → b.card_num ≡ 108
    → g.turn ≡ 0
    → g.have_uno ≡ none
    → g.player_num ≡ player_num
    → ((s : ℕ) → b.hand_num s ≡ none)
    → 0 < player_num
    → count_below 10 (λ s. taken (used s)) ≡ player_num
    → OpenedOr used player_num (elim o [ none ↦ none | some g' ↦ some (first_round draw used g') ])
first draw player_num used b g none h u e t c p n pos count = u
first draw player_num used b g (some g') h u e t c p n pos count =
    first_round-Opened draw player_num used b g g' h u e t c p n pos count

deal_seat_rest :
    (b : Bool) (i : ℕ) (g : Game)
    → ((if b then deal_seat i g else g).turn ≡ g.turn)
      × ((if b then deal_seat i g else g).have_uno ≡ g.have_uno)
      × ((if b then deal_seat i g else g).player_num ≡ g.player_num)
unfolding deal_seat deal_cards deal_one
deal_seat_rest true i g = (refl, refl, refl)
deal_seat_rest false i g = (refl, refl, refl)

deal_seats_rest :
    (k i : ℕ) (used : ℕ → Option ℕ) (g : Game)
    → ((deal_seats k i used g).turn ≡ g.turn)
      × ((deal_seats k i used g).have_uno ≡ g.have_uno)
      × ((deal_seats k i used g).player_num ≡ g.player_num)
unfolding deal_seats
deal_seats_rest zero i used g = (refl, refl, refl)
deal_seats_rest (suc k) i used g =
    let one = deal_seat_rest (taken (used i)) i g in
    let rest = deal_seats_rest k (suc i) used (if taken (used i) then deal_seat i g else g) in
    (rest.0 ∙ one.0, rest.1 ∙ one.1, rest.2 ∙ one.2)

-- Whatever rand() answers, for the seats that are used, one at least and as many as `player_num`
-- says: the opening of a game ends. Each used seat has seven cards and the other seats play no
-- part, no card is in two places, the turn is at a used seat, and a card that is not wild is on the
-- table, with its colour.
pub opening-OpenedOr :
    (rand junk : ℕ → ℕ) (draw player_num : ℕ) (used : ℕ → Option ℕ) (state : ℕ → ℕ) (total : ℕ)
    → 0 < player_num
    → count_below 10 (λ s. taken (used s)) ≡ player_num
    → OpenedOr used player_num (opening rand junk draw player_num used state total)
unfolding opening before
opening-OpenedOr rand junk draw player_num used state total pos count =
    let b = before rand junk player_num state total in
    let h =
      deal_seats-Hands 10 0 used b (omega arith) (before-IsDealt rand junk player_num state total)
        (λ s lo. (refl, λ c. refl)) in
    let rest = deal_seats_rest 10 0 used b in
    first draw player_num used b (deal_seats 10 0 used b) _ h
      (table_cards-up (deal_seats 10 0 used b) (omega (arith, h.left)) h.dealt) refl rest.0 rest.1
      rest.2 (λ s. refl) pos count
