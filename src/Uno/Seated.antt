-- ===== src/Uno/Seated.antt =====
-- tcpcliserv/final_server.c: who plays in a game, and whose turn it is.
use unpv13e.Base.{
  ℕ, ◌+◌, ◌≤◌, ◌<◌, ◌≡◌, refl, sym, ◌∙◌, true, false, Option, none, some, arith, inl, inr,
}
use unpv13e.Uno.Arrays.{count_below, count_ext}
use unpv13e.Uno.Turn.{taken, place_lt, NextSeat, switch_to_next_player-NextSeat}
use unpv13e.Uno.Game.{Game}
use unpv13e.Uno.Draw.Dealt.{IsDealt}
use unpv13e.Uno.Draw.Sound.{Gives, Given}
use unpv13e.Uno.Play.{pass_turn}

-- The turn is at one of the ten seats, which plays, as many play as `player_num` says, and a seat
-- for which was called plays.
pub record IsSeated (g : Game) : Type 0 where
  pub seat : g.whose_round < 10
  pub plays : taken (g.hand_num g.whose_round) ≡ true
  pub direction : g.turn < 2
  pub players : count_below 10 (λ s. taken (g.hand_num s)) ≡ g.player_num
  pub outside : (s : ℕ) → 10 ≤ s → taken (g.hand_num s) ≡ false
  pub caller : (h : ℕ) → g.have_uno ≡ some h → taken (g.hand_num h) ≡ true

-- The game is sound, and at most `k` cards have gone from the stack since `g`.
pub record IsSound (k : ℕ) (g g' : Game) : Type 0 where
  pub dealt : IsDealt g'
  pub seated : IsSeated g'
  pub used_up : g.card_num ≤ g'.card_num + k

abbrev pub SoundOr : ℕ → Game → Option Game → Type 0
SoundOr k g none = ⊥
SoundOr k g (some g') = IsSound k g g'

next_plays :
    (hand_num : ℕ → Option ℕ) (turn w r : ℕ)
    → w < 10
    → taken (hand_num w) ≡ true
    → NextSeat hand_num turn w r
    → (r < 10) × (taken (hand_num r) ≡ true)
next_plays hand_num turn w r h on (inl (k, lo, hi, e, on', before)) =
    (ground (arith, e, place_lt turn w k), on')
next_plays hand_num turn w r h on (inr (e, all)) = (ground (arith, e), rw e on)

pub pass_turn-IsSeated : (g : Game) → IsSeated g → IsSeated (pass_turn g)
unfolding pass_turn
pass_turn-IsSeated g s =
    let n =
      next_plays g.hand_num g.turn g.whose_round _ s.seat s.plays
        (switch_to_next_player-NextSeat g.hand_num g.turn g.whose_round s.seat) in
    record {
      seat = n.0;
      plays = n.1;
      direction = s.direction;
      players = s.players;
      outside = s.outside;
      caller = s.caller;
    }

pub pass_turn-IsDealt : (g : Game) → IsDealt g → IsDealt (pass_turn g)
unfolding pass_turn
pass_turn-IsDealt g d = record {
  within = d.within;
  cards = d.cards;
  once = d.once;
  free = d.free;
  apart = d.apart;
  counted = d.counted;
}

pub pass_turn-card_num : (g : Game) → (pass_turn g).card_num ≡ g.card_num
unfolding pass_turn
pass_turn-card_num g = refl

pub pass_turn-IsSound : (k : ℕ) (g g' : Game) → IsSound k g g' → IsSound k g (pass_turn g')
pass_turn-IsSound k g g' s = record {
  dealt = pass_turn-IsDealt g' s.dealt;
  seated = pass_turn-IsSeated g' s.seated;
  used_up = omega (arith, s.used_up, pass_turn-card_num g');
}

pub Gives-IsSeated : (n w : ℕ) (g g' : Game) → Gives n w g g' → IsSeated g → IsSeated g'
Gives-IsSeated n w g g' a s =
    let same = a.players.0 in
    record {
      seat = omega (arith, a.players.1, s.seat);
      plays = rw a.players.1 (same g.whose_round ∙ s.plays);
      direction = omega (arith, a.players.2, s.direction);
      players = count_ext 10 _ _ (λ t lt. same t) ∙ s.players ∙ sym a.players.3;
      outside = λ t h. same t ∙ s.outside t h;
      caller = λ h e. same h ∙ s.caller h (sym a.call ∙ e);
    }

pub Given-SoundOr :
    (n w : ℕ) (g : Game) (o : Option Game) → Given n w g o → IsSeated g → SoundOr n g o
Given-SoundOr n w g none a s = a
Given-SoundOr n w g (some g') a s = record {
  dealt = a.dealt;
  seated = Gives-IsSeated n w g g' a s;
  used_up = omega (arith, a.taken_off);
}

-- A state with the same cards, seats and turn is as sound.
pub recast-IsDealt :
    (g g' : Game)
    → IsDealt g
    → IsDealt (record g' {
      hand = g.hand;
      hand_num = g.hand_num;
      card_seq = g.card_seq;
      card_num = g.card_num;
    })
recast-IsDealt g g' d = record {
  within = d.within;
  cards = d.cards;
  once = d.once;
  free = d.free;
  apart = d.apart;
  counted = d.counted;
}

-- The second state, with the cards, the seats, the turn and the call of the first.
abbrev pub recast : Game → Game → Game
recast g g' = record g' {
  hand = g.hand;
  hand_num = g.hand_num;
  card_seq = g.card_seq;
  card_num = g.card_num;
  whose_round = g.whose_round;
  turn = g.turn;
  player_num = g.player_num;
  have_uno = g.have_uno;
}

pub recast-IsSound : (k : ℕ) (g g' g'' : Game) → IsSound k g g' → IsSound k g (recast g' g'')
recast-IsSound k g g' g'' s = record {
  dealt =
      recast-IsDealt g'
        (record g'' {
          whose_round = g'.whose_round;
          turn = g'.turn;
          player_num = g'.player_num;
          have_uno = g'.have_uno;
        })
        s.dealt;
  seated = record {
    seat = s.seated.seat;
    plays = s.seated.plays;
    direction = s.seated.direction;
    players = s.seated.players;
    outside = s.seated.outside;
    caller = s.seated.caller;
  };
  used_up = s.used_up;
}

pub self-IsSound : (g : Game) → IsDealt g → IsSeated g → IsSound 0 g g
self-IsSound g d s = record { dealt = d; seated = s; used_up = omega arith }

pub then-IsSound :
    (k m n : ℕ) (g g' g'' : Game) → k + m ≤ n → IsSound k g g' → IsSound m g' g'' → IsSound n g g''
then-IsSound k m n g g' g'' h a b = record {
  dealt = b.dealt;
  seated = b.seated;
  used_up = omega (arith, a.used_up, b.used_up);
}

pub then-SoundOr :
    (k m n : ℕ) (g g' : Game) (o : Option Game)
    → k + m ≤ n
    → IsSound k g g'
    → SoundOr m g' o
    → SoundOr n g o
then-SoundOr k m n g g' none h a b = b
then-SoundOr k m n g g' (some g'') h a b = then-IsSound k m n g g' g'' h a b

pub wider-IsSound : (k m : ℕ) (g g' : Game) → k ≤ m → IsSound k g g' → IsSound m g g'
wider-IsSound k m g g' h a = record {
  dealt = a.dealt;
  seated = a.seated;
  used_up = omega (arith, a.used_up);
}

pub wider-SoundOr : (k m : ℕ) (g : Game) (o : Option Game) → k ≤ m → SoundOr k g o → SoundOr m g o
wider-SoundOr k m g none h a = a
wider-SoundOr k m g (some g') h a = wider-IsSound k m g g' h a
