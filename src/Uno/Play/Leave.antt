-- ===== src/Uno/Play/Leave.antt =====
-- tcpcliserv/final_server.c: a player who leaves or takes a card keeps the game sound.
use unpv13e.Base.{
  ℕ, zero, suc, ◌-◌, ◌≤◌, ◌<◌, ◌≡◌, ◌≢◌, refl, ap, ◌∙◌, Bool, true, false, Option, none, some, ◌==◌,
  ltb, if◌then◌else◌, arith, Bool-cases, inl, inr,
}
use unpv13e.Uno.Arrays.{update, count_below, count_ext, count_off, count_all_off}
use unpv13e.Uno.Turn.{taken, NextSeat, switch_to_next_player-NextSeat, place_lt}
use unpv13e.Uno.Game.{Game, tell, won, tell_players, start_round}
use unpv13e.Uno.Draw.Dealt.{IsDealt}
use unpv13e.Uno.Seated.{IsSeated, recast, IsSound, recast-IsSound, recast-IsDealt}
use unpv13e.Uno.Play.{
  Outcome, goes, ends, pass_turn, leave, taken_out, disconnected, last_wins, set_state,
  winner_score, table_text,
}
use unpv13e.Uno.Play.Sound.{start_round-IsSound, set_state-IsDealt}

-- The leaver is out: no count, and one player fewer.
abbrev out : ℕ → Game → Game
out i g = record g { hand_num = update g.hand_num i none; player_num = g.player_num - 1 }

out-IsDealt : (i : ℕ) (g : Game) → IsDealt g → IsDealt (out i g)
out-IsDealt i g d = record {
  within = d.within;
  cards = d.cards;
  once = d.once;
  free = d.free;
  apart = d.apart;
  counted = λ s n e. ground (arith, d.counted s n, e);
}

module _ (i : ℕ) (g : Game) (s : IsSeated g) (lt : i < 10) (on : taken (g.hand_num i) ≡ true) where
  out_count : suc (count_below 10 (λ t. taken ((out i g).hand_num t))) ≡ g.player_num
  out_count =
      ap suc (count_ext 10 _ _ (λ t l. ground arith))
      ∙ count_off 10 (λ t. taken (g.hand_num t)) i lt on
      ∙ s.players

  out_outside : (t : ℕ) → 10 ≤ t → taken ((out i g).hand_num t) ≡ false
  out_outside t h = ground (arith, s.outside t h)

  out_caller :
      g.have_uno ≢ some i → (h : ℕ) → g.have_uno ≡ some h → taken ((out i g).hand_num h) ≡ true
  out_caller ne h e = elim (Bool-cases (h == i)) [
    | inl at ↦ absurd (ne (e ∙ ap some (ground (arith, at))))
    | inr off ↦ rw off (s.caller h e)
  ]

  -- With another player the turn goes to one.
  out_next :
      1 < g.player_num
      → i ≡ g.whose_round
      → (r : ℕ) → NextSeat (out i g).hand_num g.turn g.whose_round r
      → (r < 10) × (taken ((out i g).hand_num r) ≡ true)
  out_next many at r (inl (k, lo, hi, e, on', before)) =
      (ground (arith, e, place_lt g.turn g.whose_round k), on')
  out_next many at r (inr (e, all)) = absurd (
      omega (
        arith,
        out_count,
        count_all_off 10 (λ t. taken ((out i g).hand_num t))
            (λ t l. elim (Bool-cases (t == i)) [
              | inl same ↦ rw same refl
              | inr off ↦ all t l (λ e. ground (arith, off, at, e))
            ]),
      ))

  module _ (d : IsDealt g) (ne : g.have_uno ≢ some i) (many : 1 < g.player_num) where
    out-IsSound : i ≢ g.whose_round → IsSound 0 g (out i g)
    out-IsSound off = record {
      dealt = out-IsDealt i g d;
      seated = record {
        seat = s.seat;
        plays = ground (arith, off, s.plays);
        direction = s.direction;
        players = omega (arith, out_count);
        outside = out_outside;
        caller = out_caller ne;
      };
      used_up = omega arith;
    }

    out_passed-IsSound : i ≡ g.whose_round → IsSound 0 g (pass_turn (out i g))
    unfolding pass_turn
    out_passed-IsSound at =
        let n =
          out_next many at _
            (switch_to_next_player-NextSeat (out i g).hand_num g.turn g.whose_round s.seat) in
        record {
          dealt = recast-IsDealt (out i g) (pass_turn (out i g)) (out-IsDealt i g d);
          seated = record {
            seat = n.0;
            plays = n.1;
            direction = s.direction;
            players = omega (arith, out_count);
            outside = out_outside;
            caller = out_caller ne;
          };
          used_up = omega arith;
        }

won_one-IsDealt :
    (b : Bool) (o : Option ℕ) (n : ℕ) (g : Game)
    → IsDealt g
    → IsDealt (if b then set_state o 1 (tell o (won o n) g) else g)
unfolding tell
won_one-IsDealt true o n g d =
    set_state-IsDealt o 1 (tell o (won o n) g) (recast-IsDealt g (tell o (won o n) g) d)
won_one-IsDealt false o n g d = d

last_wins-IsDealt :
    (k j : ℕ) (used : ℕ → Option ℕ) (n : ℕ) (g : Game)
    → IsDealt g
    → IsDealt (last_wins k j used n g)
unfolding last_wins
last_wins-IsDealt zero j used n g d = d
last_wins-IsDealt (suc k) j used n g d =
    last_wins-IsDealt k (suc j) used n
      (if taken (g.hand_num j) then set_state (used j) 1 (tell (used j) (won (used j) n) g) else g)
      (won_one-IsDealt (taken (g.hand_num j)) (used j) n g d)

-- Where two others play at least, the game goes on soundly without the player; else it has ended.
abbrev pub LeftBy : ℕ → Game → Outcome → Type 0
LeftBy i g (goes g') =
    IsSound 0 g g'
    × (2 < g.player_num)
    × (g'.hand_num i ≡ none)
    × (suc g'.player_num ≡ g.player_num)
LeftBy i g (ends g') = IsDealt g' × (g.player_num ≤ 2)

without : (i : ℕ) (g : Game) → update g.hand_num i none i ≡ none
without i g = ground arith

left-LeftBy :
    (i : ℕ) (used : ℕ → Option ℕ) (g t : Game)
    → IsDealt g
    → IsSeated g
    → i < 10
    → taken (g.hand_num i) ≡ true
    → g.have_uno ≢ some i
    → LeftBy i g (
        if ltb (g.player_num - 1) 2
        then ends
            (last_wins 10 0 used (winner_score used (recast (out i g) t)) (recast (out i g) t))
        else if i == g.whose_round
        then goes
            (start_round (table_text (recast (out i g) t)) used (pass_turn (recast (out i g) t)))
        else goes (recast (out i g) t))
unfolding pass_turn start_round
left-LeftBy i used g t d s lt on ne =
    let o = out i g in
    elim (Bool-cases (ltb (g.player_num - 1) 2)) [
      | inl few ↦ rw few (
        last_wins-IsDealt 10 0 used (winner_score used (recast o t)) (recast o t)
            (recast-IsDealt o (recast o t) (out-IsDealt i g d)),
        ground (arith, few),
      )
      | inr many ↦ elim (Bool-cases (i == g.whose_round)) [
        | inl at ↦
            rw (many, at)
              (
                start_round-IsSound 0 (table_text (recast o t)) used g (pass_turn (recast o t)) (
                    recast-IsSound 0 g (pass_turn o) (pass_turn (recast o t)) (
                      out_passed-IsSound i g s lt on d ne (ground (arith, many))
                        (ground (arith, at)))),
                ground (arith, many),
                without i g,
                ground (arith, many),
              )
        | inr off ↦
            rw (many, off)
              (
                recast-IsSound 0 g o t (
                    out-IsSound i g s lt on d ne (ground (arith, many))
                      (λ e. ground (arith, off, e))),
                ground (arith, many),
                without i g,
                ground (arith, many),
              )
      ]
    ]

-- From a sound game, for a player at one of the ten seats who has not left and for whom nobody has
-- called: where the player leaves and two others play at least, the game goes on soundly without
-- that player, with the turn at one who plays; with fewer it ends. The cards stay right.
pub leave-LeftBy :
    (i conn : ℕ) (eof : Bool) (used : ℕ → Option ℕ) (g : Game)
    → IsDealt g
    → IsSeated g
    → i < 10
    → taken (g.hand_num i) ≡ true
    → g.have_uno ≢ some i
    → LeftBy i g (leave i conn eof used g)
unfolding leave taken_out disconnected tell_players
leave-LeftBy i conn true used g d s lt on ne =
    left-LeftBy i used g (taken_out i conn true used g) d s lt on ne
leave-LeftBy i conn false used g d s lt on ne =
    left-LeftBy i used g (taken_out i conn false used g) d s lt on ne
