-- ===== src/Uno/Play/Sound.antt =====
-- tcpcliserv/final_server.c: a card that is played keeps the game sound.
use unpv13e.Base.{
  ℕ, zero, suc, ◌≤◌, ◌<◌, ◌≡◌, refl, List, ◌∷◌, Bool, true, false, ◌&&◌, Option, none, some,
  if◌then◌else◌, arith, Bool-cases, inl, inr,
}
use unpv13e.Uno.Arrays.{FindsFrom, find_from-FindsFrom}
use unpv13e.Uno.Cards.{has_name, effect}
use unpv13e.Uno.Turn.{taken}
use unpv13e.Uno.Game.{Game, tell_players, start_round}
use unpv13e.Uno.Draw.{give_card_to_player}
use unpv13e.Uno.Draw.Dealt.{IsDealt}
use unpv13e.Uno.Draw.Sound.{give_card_to_player-Given}
use unpv13e.Uno.Seated.{
  IsSeated, IsSound, SoundOr, pass_turn-IsSound, Given-SoundOr, recast-IsSound, recast-IsDealt,
  self-IsSound, then-IsSound, then-SoundOr, wider-SoundOr,
}
use unpv13e.Uno.Play.{
  Outcome, goes, ends, pass_turn, put_down, spent, wins, take_effect, next_round, laid, play_named,
  stored_name, second, play, take_card, to_lobby, set_state, table_text,
}
use unpv13e.Uno.Play.Effects.{put_down-IsSound, take_effect-SoundOr, cost}

-- The game goes on soundly with at most `k` cards fewer on the stack, or it ends with the cards right.
abbrev pub Proceeds : ℕ → Game → Option Outcome → Type 0
Proceeds k g none = ⊥
Proceeds k g (some (goes g')) = IsSound k g g'
Proceeds k g (some (ends g')) = IsDealt g'

pub start_round-IsSound :
    (k : ℕ) (table : List ℕ) (used : ℕ → Option ℕ) (g g' : Game)
    → IsSound k g g'
    → IsSound k g (start_round table used g')
unfolding start_round
start_round-IsSound k table used g g' s = recast-IsSound k g g' (start_round table used g') s

pub next_round-Proceeds :
    (k : ℕ) (table : List ℕ) (used : ℕ → Option ℕ) (g : Game) (o : Option Game)
    → SoundOr k g o
    → Proceeds k g (next_round table used o)
unfolding next_round
next_round-Proceeds k table used g none s = s
next_round-Proceeds k table used g (some g') s = start_round-IsSound k table used g g' s

pub set_state-IsDealt : (o : Option ℕ) (n : ℕ) (g : Game) → IsDealt g → IsDealt (set_state o n g)
unfolding set_state
set_state-IsDealt none n g d = d
set_state-IsDealt (some conn) n g d = recast-IsDealt g (set_state (some conn) n g) d

sent_back-IsDealt :
    (b : Bool) (o : Option ℕ) (g : Game) → IsDealt g → IsDealt (if b then set_state o 1 g else g)
sent_back-IsDealt true o g d = set_state-IsDealt o 1 g d
sent_back-IsDealt false o g d = d

pub to_lobby-IsDealt :
    (k j : ℕ) (used : ℕ → Option ℕ) (g : Game) → IsDealt g → IsDealt (to_lobby k j used g)
unfolding to_lobby
to_lobby-IsDealt zero j used g d = d
to_lobby-IsDealt (suc k) j used g d =
    to_lobby-IsDealt k (suc j) used (if taken (g.hand_num j) then set_state (used j) 1 g else g)
      (sent_back-IsDealt (taken (g.hand_num j)) (used j) g d)

wins-IsDealt : (i : ℕ) (used : ℕ → Option ℕ) (g : Game) → IsDealt g → IsDealt (wins i used g)
unfolding wins tell_players
wins-IsDealt i used g d =
    to_lobby-IsDealt 10 0 used _ (recast-IsDealt g (tell_players none _ used g) d)

pub laid-Proceeds :
    (rand : ℕ → ℕ → ℕ) (i : ℕ) (text : List ℕ) (used : ℕ → Option ℕ) (g : Game) (c n : ℕ)
    → IsDealt g
    → IsSeated g
    → cost (effect c) ≤ n
    → n ≤ g.card_num
    → Proceeds n g (laid rand i text used g (some c))
unfolding laid
laid-Proceeds rand i text used g c n d s few h =
    let t = record g { table_card = c; colour = second text } in
    let st = recast-IsSound 0 g g t (self-IsSound g d s) in
    elim (Bool-cases (spent (g.hand_num i))) [
      | inl e ↦ rw e (wins-IsDealt i used t st.dealt)
      | inr e ↦ rw e (
          next_round-Proceeds n text used g (take_effect rand used (effect c) t) (
            then-SoundOr 0 n n g t _ (omega arith) st (
              wider-SoundOr (cost (effect c)) n t _ few
                (take_effect-SoundOr rand used (effect c) t st.dealt st.seated (omega arith)))))
    ]

-- Where the hand holds a card of the name.
abbrev pub Holds : ℕ → List ℕ → Game → Type 0
Holds i text g = (j : ℕ) × (j < 108) × (g.hand i j ≡ true) × (has_name j text ≡ true)

found_held :
    (i : ℕ) (text : List ℕ) (g : Game) (o : Option ℕ)
    → Holds i text g
    → FindsFrom 108 0 (λ j. g.hand i j && has_name j text) o
    → (j : ℕ) × (o ≡ some j) × (j < 108) × (g.hand i j ≡ true) × (has_name j text ≡ true)
found_held i text g none (j, lt, held, named) f =
    absurd (ground (arith, f j (omega arith) (omega arith), held, named))
found_held i text g (some m) (j, lt, held, named) (lo, hi, t, first) =
    (m, refl, omega arith, ground (arith, t), ground (arith, t))

pub Proceeds-from :
    (n : ℕ) (g p : Game) (o : Option Outcome) → IsSound 0 g p → Proceeds n p o → Proceeds n g o
Proceeds-from n g p none s h = h
Proceeds-from n g p (some (goes g')) s h = then-IsSound 0 n n g p g' (omega arith) s h
Proceeds-from n g p (some (ends g')) s h = h

-- No card of the name in the hand makes the next player draw more than `n` cards: four for a wild
-- draw four, two for a draw two, and none for every other card.
abbrev pub CostsAtMost : ℕ → ℕ → List ℕ → Game → Type 0
CostsAtMost n i name g = (j : ℕ) → g.hand i j ≡ true → has_name j name ≡ true → cost (effect j) ≤ n

-- From a sound game, for a player who has not left and a card that the hand holds, by its name: where
-- the stack has the `n` cards, four at most, that the card makes the next player draw, playing it
-- always comes to a result: the game goes on soundly with at most `n` cards fewer on the stack, or
-- ends with the cards as sound. A card that makes nobody draw so needs no card on the stack.
pub play-Proceeds :
    (rand : ℕ → ℕ → ℕ) (i : ℕ) (op text name : List ℕ) (ws : List (List ℕ)) (used : ℕ → Option ℕ)
    (g : Game) (n : ℕ)
    → IsDealt g
    → IsSeated g
    → CostsAtMost n i name g
    → n ≤ g.card_num
    → taken (g.hand_num i) ≡ true
    → stored_name text ≡ some name
    → Holds i name g
    → Proceeds n g (play rand i (op ∷ text ∷ ws) used g)
unfolding play play_named put_down
play-Proceeds rand i op text name ws used g n d s few h on stored holds =
    let (j, found, lt, held, named) = found_held i name g _ holds (find_from-FindsFrom 108 0 _) in
    let p = put_down i (some j) g in
    let sp = put_down-IsSound i j g d held lt on s in
    rw (stored, found)
      (Proceeds-from n g p _ sp (
        laid-Proceeds rand i text used p j n sp.dealt sp.seated (few j held named)
          (omega (arith, sp.used_up))))

took :
    (used : ℕ → Option ℕ) (g : Game) (o : Option Game)
    → SoundOr 1 g o
    → Proceeds 1 g (elim o [
      | none ↦ none
      | some g' ↦ let p = pass_turn g' in next_round (table_text p) used (some p)
    ])
took used g none s = s
took used g (some g') s =
    next_round-Proceeds 1 _ used g (some (pass_turn g')) (pass_turn-IsSound 1 g g' s)

-- From a sound game with a card on the stack: the player whose turn it is takes one, and the game
-- goes on soundly.
pub take_card-Proceeds :
    (rand : ℕ → ℕ → ℕ) (used : ℕ → Option ℕ) (g : Game)
    → IsDealt g
    → IsSeated g
    → 1 ≤ g.card_num
    → Proceeds 1 g (take_card rand used g)
unfolding take_card
take_card-Proceeds rand used g d s h =
    took used g (give_card_to_player rand used g.whose_round 1 g) (
      Given-SoundOr 1 g.whose_round g _
        (give_card_to_player-Given rand used g.whose_round 1 g d s.plays h) s)
