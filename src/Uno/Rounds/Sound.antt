-- ===== src/Uno/Rounds/Sound.antt =====
-- tcpcliserv/final_server.c: a round of the loop of GameStart keeps the game sound.
use unpv13e.Base.{
  ℕ, zero, suc, ◌+◌, ◌≤◌, ◌≡◌, ◌≢◌, refl, List, [], ◌∷◌, true, false, ◌&&◌, Option, none, some, pos,
  ◌==◌, arith, Bool-cases, inl, inr,
}
use unpv13e.Uno.Arrays.{FindsFrom, find_from-FindsFrom}
use unpv13e.Uno.Cards.{has_name}
use unpv13e.Uno.Text.{tokens, before_newline, before_null, long_max}
use unpv13e.Uno.Turn.{taken}
use unpv13e.Uno.Game.{Game, chat, tell_players}
use unpv13e.Uno.Draw.Dealt.{IsDealt}
use unpv13e.Uno.Seated.{
  IsSeated, IsSound, SoundOr, recast, recast-IsSound, self-IsSound, then-IsSound, wider-IsSound,
}
use unpv13e.Uno.Play.{Outcome, goes, ends, put_down, stored_name, play_named, play, laid}
use unpv13e.Uno.Play.Effects.{put_down-IsSound, cost-effect}
use unpv13e.Uno.Play.Sound.{Proceeds, laid-Proceeds, Proceeds-from, take_card-Proceeds}
use unpv13e.Uno.Race.{resolved}
use unpv13e.Uno.Race.Sound.{
  Keeps, weaken, calls-IsSound, own_uno-Keeps, catch_uno-Keeps, resolved-SoundOr,
}
use unpv13e.Uno.Rounds.{
  Input, eof, line, byte_at, starts, on_line, on_input, serve_seat, serve, after_calls,
  select_round,
}

-- The cards that the lines of a round can take from the stack, seat by seat.
abbrev pub line_cost : Option Input → ℕ
line_cost none = 0
line_cost (some input) = 4

abbrev pub asked : (ℕ → Option Input) → ℕ → ℕ → ℕ
asked inputs zero i = 0
asked inputs (suc k) i = line_cost (inputs i) + asked inputs k (suc i)

Proceeds-Keeps : (k m : ℕ) (g : Game) (o : Option Outcome) → k ≤ m → Proceeds k g o → Keeps m g o
Proceeds-Keeps k m g none h p = tt
Proceeds-Keeps k m g (some (goes g')) h p = wider-IsSound k m g g' h p
Proceeds-Keeps k m g (some (ends g')) h p = p

-- A card that is not in the hand: card_id is what it was, if anything.
laid-Keeps :
    (rand : ℕ → ℕ → ℕ) (i : ℕ) (text : List ℕ) (used : ℕ → Option ℕ) (g : Game) (o : Option ℕ)
    → IsDealt g
    → IsSeated g
    → 4 ≤ g.card_num
    → Keeps 4 g (laid rand i text used g o)
unfolding laid
laid-Keeps rand i text used g none d s h = tt
laid-Keeps rand i text used g (some c) d s h =
    Proceeds-Keeps 4 4 g _ (omega arith)
      (laid-Proceeds rand i text used g c 4 d s (cost-effect c) h)

placed-Keeps :
    (rand : ℕ → ℕ → ℕ) (i : ℕ) (text name : List ℕ) (used : ℕ → Option ℕ) (g : Game) (o : Option ℕ)
    → IsDealt g
    → IsSeated g
    → taken (g.hand_num i) ≡ true
    → 4 ≤ g.card_num
    → FindsFrom 108 0 (λ j. g.hand i j && has_name j name) o
    → Keeps 4 g (laid rand i text used (put_down i o g) (put_down i o g).card_id)
unfolding put_down
placed-Keeps rand i text name used g none d s on h f = laid-Keeps rand i text used g g.card_id d s h
placed-Keeps rand i text name used g (some j) d s on h (lo, hi, t, first) =
    let sp = put_down-IsSound i j g d (ground (arith, t)) (omega arith) on s in
    Proceeds-Keeps 4 4 g _ (omega arith) (
      Proceeds-from 4 g (put_down i (some j) g) _ sp (
        laid-Proceeds rand i text used (put_down i (some j) g) j 4 sp.dealt sp.seated
          (cost-effect j) (omega (arith, sp.used_up))))

play_named-Keeps :
    (rand : ℕ → ℕ → ℕ) (i : ℕ) (text : List ℕ) (used : ℕ → Option ℕ) (g : Game)
    (o : Option (List ℕ))
    → IsDealt g
    → IsSeated g
    → taken (g.hand_num i) ≡ true
    → 4 ≤ g.card_num
    → Keeps 4 g (play_named rand i text used g o)
unfolding play_named
play_named-Keeps rand i text used g none d s on h = tt
play_named-Keeps rand i text used g (some name) d s on h =
    placed-Keeps rand i text name used g _ d s on h (find_from-FindsFrom 108 0 _)

play-Keeps :
    (rand : ℕ → ℕ → ℕ) (i : ℕ) (ws : List (List ℕ)) (used : ℕ → Option ℕ) (g : Game)
    → IsDealt g
    → IsSeated g
    → taken (g.hand_num i) ≡ true
    → 4 ≤ g.card_num
    → Keeps 4 g (play rand i ws used g)
unfolding play
play-Keeps rand i [] used g d s on h = tt
play-Keeps rand i (op ∷ []) used g d s on h = tt
play-Keeps rand i (op ∷ text ∷ r) used g d s on h =
    play_named-Keeps rand i text used g (stored_name text) d s on h

-- The connection does not end, and its line does not ask to leave.
abbrev pub Stays : Option Input → Type 0
Stays none = Unit
Stays (some eof) = ⊥
Stays (some (line l)) = byte_at 0 l ≢ b'8'

not_leaving : (l : List ℕ) → byte_at 0 l ≢ b'8' → (byte_at 0 l == b'8') ≡ false
not_leaving l h = ground (arith, h)

module _ (rand : ℕ → ℕ → ℕ) (name : ℕ → List ℕ) (used : ℕ → Option ℕ) where
  on_line-Keeps :
      (i conn : ℕ) (l : List ℕ) (g : Game)
      → IsDealt g
      → IsSeated g
      → taken (g.hand_num i) ≡ true
      → 4 ≤ g.card_num
      → byte_at 0 l ≢ b'8'
      → Keeps 4 g (on_line rand name used i conn l g)
  unfolding on_line tell_players
  on_line-Keeps i conn l g d s on h stays =
      let ws = tokens (before_newline l) in
      let same = wider-IsSound 0 4 g g (omega arith) (self-IsSound g d s) in
      rw (not_leaving l stays) (elim (Bool-cases (starts b'2' b'1' l)) [
        | inl e ↦ rw e (recast-IsSound 4 g g (tell_players none (chat (before_null l)) used g) same)
        | inr e1 ↦ elim (Bool-cases (byte_at 0 l == b'9')) [
          | inl e ↦ rw (e1, e) (play-Keeps rand i ws used g d s on h)
          | inr e2 ↦ elim (Bool-cases (starts b'1' b'0' l)) [
            | inl e ↦
                rw (e1, e2, e)
                  (Proceeds-Keeps 1 4 g _ (omega arith)
                    (take_card-Proceeds rand used g d s (omega arith)))
            | inr e3 ↦ elim (Bool-cases (starts b'1' b'1' l)) [
              | inl e ↦
                  rw (e1, e2, e3, e)
                    (weaken 2 4 g _ (omega arith)
                      (own_uno-Keeps rand i ws used g d s on (omega arith)))
              | inr e4 ↦ elim (Bool-cases (starts b'1' b'2' l)) [
                | inl e ↦
                    rw (e1, e2, e3, e4, e)
                      (weaken 2 4 g _ (omega arith)
                        (catch_uno-Keeps rand name i ws used g d s on (omega arith)))
                | inr e5 ↦ rw (e1, e2, e3, e4, e5) same
              ]
            ]
          ]
        ]
      ])

  serve_seat-Keeps :
      (i : ℕ) (conn o : Option ℕ) (input : Option Input) (g : Game)
      → IsDealt g
      → IsSeated g
      → g.hand_num i ≡ o
      → line_cost input ≤ g.card_num
      → Stays input
      → Keeps (line_cost input) g (serve_seat rand name used i conn o input g)
  unfolding serve_seat on_input
  serve_seat-Keeps i (some conn) (some n) (some eof) g d s e h stays = absurd stays
  serve_seat-Keeps i (some conn) (some n) (some (line l)) g d s e h stays =
      on_line-Keeps i conn l g d s (rw e refl) h stays
  serve_seat-Keeps i none o input g d s e h stays =
      wider-IsSound 0 (line_cost input) g g (omega arith) (self-IsSound g d s)
  serve_seat-Keeps i (some conn) none input g d s e h stays =
      wider-IsSound 0 (line_cost input) g g (omega arith) (self-IsSound g d s)
  serve_seat-Keeps i (some conn) (some n) none g d s e h stays = self-IsSound g d s

Keeps-from :
    (m n : ℕ) (g g' : Game) (o : Option Outcome) → IsSound m g g' → Keeps n g' o → Keeps (m + n) g o
Keeps-from m n g g' none s h = tt
Keeps-from m n g g' (some (goes g'')) s h = then-IsSound m n (m + n) g g' g'' (omega arith) s h
Keeps-from m n g g' (some (ends g'')) s h = h

module _ (rand : ℕ → ℕ → ℕ → ℕ) (name : ℕ → List ℕ) (used : ℕ → Option ℕ)
    (inputs : ℕ → Option Input) where
  serve-Keeps :
      (k i m n : ℕ) (g : Game) (o : Option Outcome)
      → m + asked inputs k i ≡ n
      → n ≤ g.card_num
      → ((j : ℕ) → Stays (inputs j))
      → Keeps m g o
      → Keeps n g (serve rand name used inputs k i o)
  unfolding serve
  serve-Keeps k i m n g none e h stays s = tt
  serve-Keeps k i m n g (some (ends g')) e h stays s = s
  serve-Keeps zero i m n g (some (goes g')) e h stays s = wider-IsSound m n g g' (omega arith) s
  serve-Keeps (suc k) i m n g (some (goes g')) e h stays s =
      let r = serve_seat (rand i) name used i (used i) (g'.hand_num i) (inputs i) g' in
      serve-Keeps k (suc i) (m + line_cost (inputs i)) n g r (omega arith) h stays (
        Keeps-from m (line_cost (inputs i)) g g' r s (
          serve_seat-Keeps (rand i) name used i (used i) (g'.hand_num i) (inputs i) g' s.dealt
            s.seated refl (omega (arith, s.used_up)) (stays i)))

  settled :
      (n : ℕ) (g : Game) (o : Option Game)
      → SoundOr n g o
      → Keeps n g (elim o [ none ↦ none | some g' ↦ some (goes g') ])
  settled n g none s = tt
  settled n g (some g') s = s

  after_calls-Keeps :
      (draws : ℕ → ℕ → ℕ) (n : ℕ) (g : Game) (o : Option Outcome)
      → n + 2 ≤ g.card_num
      → Keeps n g o
      → Keeps (n + 2) g (after_calls draws used o)
  unfolding after_calls
  after_calls-Keeps draws n g none h s = tt
  after_calls-Keeps draws n g (some (ends g')) h s = s
  after_calls-Keeps draws n g (some (goes g')) h s = Keeps-from n 2 g g' _ s (
      settled 2 g' (resolved draws used g' g'.have_uno) (
        resolved-SoundOr draws used g' g'.have_uno s.dealt s.seated s.seated.caller
          (omega (arith, s.used_up))))

  -- From a sound game with four cards on the stack for each line that has come, and two more: after a
  -- round in which nobody leaves, with whatever lines and whatever calls, where C defines what the
  -- lines come to: the game goes on soundly, with no more than so many cards fewer, or it has ended,
  -- with the cards as sound.
  pub select_round-Keeps :
      (g : Game)
      → IsDealt g
      → IsSeated g
      → asked inputs 10 0 + 2 ≤ g.card_num
      → ((j : ℕ) → Stays (inputs j))
      → Keeps (asked inputs 10 0 + 2) g (select_round rand name used inputs g)
  unfolding select_round
  select_round-Keeps g d s h stays =
      let g' : Game = record g { have_uno = none; time_stamp = λ i. pos long_max } in
      let start =
        calls-IsSound 0 g (recast g g') none (recast-IsSound 0 g g g' (self-IsSound g d s))
          (λ k e. absurd (ground (arith, e))) in
      after_calls-Keeps (rand 10) (asked inputs 10 0) g
        (serve rand name used inputs 10 0 (some (goes g'))) h
        (serve-Keeps 10 0 0 (asked inputs 10 0) g (some (goes g')) (omega arith) (omega arith) stays
          start)
