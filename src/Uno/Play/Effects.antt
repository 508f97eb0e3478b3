-- ===== src/Uno/Play/Effects.antt =====
-- tcpcliserv/final_server.c: the card that is put down, and what it does.
use unpv13e.Base.{
  ℕ, zero, suc, ◌+◌, ◌%◌, ◌≤◌, ◌<◌, ◌≡◌, ◌∙◌, true, Option, none, some, ◌==◌, ltb, arith,
  Bool-cases, Option-cases, inl, inr,
}
use unpv13e.Uno.Arrays.{count_ext, count_off}
use unpv13e.Uno.Cards.{effect, Effect, skip, turns, draw, plain}
use unpv13e.Uno.Turn.{taken}
use unpv13e.Uno.Game.{Game}
use unpv13e.Uno.Draw.{give_card_to_player}
use unpv13e.Uno.Draw.Dealt.{IsDealt}
use unpv13e.Uno.Draw.Sound.{give_card_to_player-Given}
use unpv13e.Uno.Seated.{
  IsSeated, IsSound, SoundOr, pass_turn-IsSound, Given-SoundOr, recast-IsDealt, self-IsSound,
  then-SoundOr, pass_turn-card_num,
}
use unpv13e.Uno.Play.{pass_turn, put_down, reverse_turn, next_draws, take_effect}

module _ (i j : ℕ) (g : Game) (d : IsDealt g) (held : g.hand i j ≡ true) (lt : j < 108) where
  put_down_has : taken (g.hand_num i) ≡ true → (m : ℕ) × (g.hand_num i ≡ some (suc m))
  put_down_has on = elim (Option-cases (g.hand_num i)) [
    | inl e ↦ absurd (ground (arith, e, on))
    | inr (zero, e) ↦ absurd (omega (arith, count_off 108 (g.hand i) j lt held, d.counted i 0 e))
    | inr (suc m, e) ↦ (m, e)
  ]

  put_down-IsDealt : taken (g.hand_num i) ≡ true → IsDealt (put_down i (some j) g)
  unfolding put_down
  put_down-IsDealt on =
      let (m, e) = put_down_has on in
      record {
        within = d.within;
        cards = d.cards;
        once = d.once;
        free = λ k s h. ground (arith, d.free k s h);
        apart = λ s t c hs ht. ground (arith, d.apart s t c, hs, ht);
        counted = λ s n h. elim (Bool-cases (s == i)) [
          | inl at ↦
              ground (arith, at, e, h, d.counted i (suc m) e, count_off 108 (g.hand i) j lt held)
          | inr off ↦ rw off (d.counted s n (ground (arith, off, h)))
        ];
      }

  taken-put_down :
      taken (g.hand_num i) ≡ true
      → (s : ℕ) → taken ((put_down i (some j) g).hand_num s) ≡ taken (g.hand_num s)
  unfolding put_down
  taken-put_down on s = let (m, e) = put_down_has on in ground (arith, e)

  pub put_down-IsSound :
      taken (g.hand_num i) ≡ true → IsSeated g → IsSound 0 g (put_down i (some j) g)
  unfolding put_down
  put_down-IsSound on s = record {
    dealt = put_down-IsDealt on;
    seated = record {
      seat = s.seat;
      plays = taken-put_down on g.whose_round ∙ s.plays;
      direction = s.direction;
      players = count_ext 10 _ _ (λ t l. taken-put_down on t) ∙ s.players;
      outside = λ t h. taken-put_down on t ∙ s.outside t h;
      caller = λ t e. taken-put_down on t ∙ s.caller t e;
    };
    used_up = omega arith;
  }

reverse_turn-IsSound : (g : Game) → IsDealt g → IsSeated g → IsSound 0 g (reverse_turn g)
unfolding reverse_turn
reverse_turn-IsSound g d s =
    let g' = record g { turn = (g.turn + 1) % 2 } in
    let s' : IsSound 0 g g' = record {
      dealt = recast-IsDealt g g' d;
      seated = record {
        seat = s.seat;
        plays = s.plays;
        direction = omega arith;
        players = s.players;
        outside = s.outside;
        caller = s.caller;
      };
      used_up = omega arith;
    } in
    elim (Bool-cases (ltb 2 g.player_num)) [
      | inl many ↦ rw many (pass_turn-IsSound 0 g g' s')
      | inr two ↦ rw two s'
    ]

passed :
    (n : ℕ) (g : Game) (o : Option Game)
    → SoundOr n g o
    → SoundOr n g (elim o [ none ↦ none | some g' ↦ some (pass_turn g') ])
passed n g none s = s
passed n g (some g') s = pass_turn-IsSound n g g' s

next_draws-SoundOr :
    (rand : ℕ → ℕ → ℕ) (used : ℕ → Option ℕ) (n : ℕ) (g : Game)
    → IsDealt g
    → IsSeated g
    → n ≤ g.card_num
    → SoundOr n g (next_draws rand used n g)
unfolding next_draws
next_draws-SoundOr rand used n g d s h =
    let p = pass_turn g in
    let sp = pass_turn-IsSound 0 g g (self-IsSound g d s) in
    let o = give_card_to_player rand used p.whose_round n p in
    passed n g o (
      then-SoundOr 0 n n g p o (omega arith) sp (
        Given-SoundOr n p.whose_round p o
          (give_card_to_player-Given rand used p.whose_round n p sp.dealt sp.seated.plays
            (omega (arith, pass_turn-card_num g)))
          sp.seated))

-- How many cards an effect takes from the stack.
abbrev pub cost : Effect → ℕ
cost (draw n) = n
cost e = 0

pub cost-effect : (c : ℕ) → cost (effect c) ≤ 4
unfolding effect
cost-effect c = ground arith

pub take_effect-SoundOr :
    (rand : ℕ → ℕ → ℕ) (used : ℕ → Option ℕ) (e : Effect) (g : Game)
    → IsDealt g
    → IsSeated g
    → cost e ≤ g.card_num
    → SoundOr (cost e) g (take_effect rand used e g)
unfolding take_effect
take_effect-SoundOr rand used skip g d s h =
    pass_turn-IsSound 0 g _ (pass_turn-IsSound 0 g g (self-IsSound g d s))
take_effect-SoundOr rand used turns g d s h = reverse_turn-IsSound g d s
take_effect-SoundOr rand used (draw n) g d s h = next_draws-SoundOr rand used n g d s h
take_effect-SoundOr rand used plain g d s h = pass_turn-IsSound 0 g g (self-IsSound g d s)
