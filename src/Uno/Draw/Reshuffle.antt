-- ===== src/Uno/Draw/Reshuffle.antt =====
-- tcpcliserv/final_server.c: the stack that GiveCardToPlayer makes anew.
use unpv13e.Base.{ℕ, zero, suc, ◌+◌, ◌<◌, ◌≡◌, Bool, true, Option, arith}
use unpv13e.Uno.Arrays.{count_below}
use unpv13e.Uno.Shuffle.{shuffle-IsShuffled}
use unpv13e.Uno.Game.{Game, tell_players}
use unpv13e.Uno.Draw.{adopted, collect, reshuffle}

collect_count :
    (n : ℕ) (held : ℕ → Bool) (seq : ℕ → ℕ) → (collect n held seq).1 + count_below n held ≡ n
unfolding collect count_below
collect_count zero held seq = omega arith
collect_count (suc n) held seq = ground (arith, collect_count n held seq)

pub record Restacked (g g' : Game) : Type 0 where
  pub size : g'.card_num + count_below 108 (adopted 10 g) ≡ 108
  pub stack : (i : ℕ) → i < g'.card_num → g'.card_seq i < g'.card_num
  pub again :
      (s c : ℕ)
      → g.hand s c ≡ true
      → c < g'.card_num
      → (i : ℕ) × (i < g'.card_num) × (g'.card_seq i ≡ c) × (g'.hand s c ≡ true)

-- When the stack is empty and is made anew: it has as many cards as are in no player's hand, but
-- they are the cards numbered from 0 on. Each card of that range that a hand holds is on the stack a
-- second time, while the hand keeps it.
pub reshuffle-Restacked :
    (rand : ℕ → ℕ) (used : ℕ → Option ℕ) (g : Game) → Restacked g (reshuffle rand used g)
unfolding reshuffle tell_players
reshuffle-Restacked rand used g =
    let (seq, n) = collect 108 (adopted 10 g) g.card_seq in
    let s = shuffle-IsShuffled rand seq n in
    record {
      size = collect_count 108 (adopted 10 g) g.card_seq;
      stack = s.below;
      again = λ t c held lt. let (i, hi, e) = s.all c lt in (i, hi, e, held);
    }
