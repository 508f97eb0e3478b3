-- ===== src/Tests/Uno/Table.antt =====
-- A game of three with a hundred cards on the stack.
use unpv13e.Base.{
  ℕ, zero, suc, ◌≡◌, refl, [], false, ◌&&◌, ◌||◌, Option, none, some, pos, ◌==◌, if◌then◌else◌,
  arith,
}
use unpv13e.Uno.Arrays.{count_below}
use unpv13e.Uno.Game.{Game}
use unpv13e.Uno.Draw.Dealt.{IsDealt}
use unpv13e.Uno.Seated.{IsSeated}

-- Connections 10, 11 and 12.
abbrev pub seats : ℕ → Option ℕ
seats s = if s == 0 then some 10 else if s == 1 then some 11 else if s == 2 then some 12 else none

-- Seat 0 has two wild cards, the others have one each; the turn is at seat 0.
abbrev pub table : Game
table = record {
  hand =
      λ s c. (s == 0 && (c == 100 || c == 104)) || ((s == 1 && c == 101) || (s == 2 && c == 102));
  hand_num =
      λ s. if s == 0 then some 2 else if s == 1 then some 1 else if s == 2 then some 1 else none;
  card_seq = λ i. i;
  card_num = 100;
  whose_round = 0;
  turn = 0;
  table_card = 3;
  colour = b'b';
  player_num = 3;
  card_id = none;
  is_uno = λ s. false;
  have_uno = none;
  time_stamp = λ s. if s == 1 then pos 5 else pos 900;
  state = λ i. 2;
  global_player_num = 3;
  sent = [];
}

counts0 : count_below 108 (table.hand 0) ≡ 2
unfolding count_below
counts0 = refl

counts1 : count_below 108 (table.hand 1) ≡ 1
unfolding count_below
counts1 = refl

counts2 : count_below 108 (table.hand 2) ≡ 1
unfolding count_below
counts2 = refl

table_counted : (s n : ℕ) → table.hand_num s ≡ some n → count_below 108 (table.hand s) ≡ n
table_counted zero n e = ground (arith, counts0, e)
table_counted (suc zero) n e = ground (arith, counts1, e)
table_counted (suc (suc zero)) n e = ground (arith, counts2, e)
table_counted (suc (suc (suc s))) n e = absurd (ground (arith, e))

pub table-IsDealt : IsDealt table
table-IsDealt = record {
  within = omega arith;
  cards = λ i h. omega arith;
  once = λ i j hi hj e. e;
  free = λ i s h. ground arith;
  apart = λ s t c hs ht. ground arith;
  counted = table_counted;
}

pub table-IsSeated : IsSeated table
unfolding count_below
table-IsSeated = record {
  seat = omega arith;
  plays = refl;
  direction = omega arith;
  players = refl;
  outside = λ s h. ground arith;
  caller = λ h e. absurd (ground (arith, e));
}
