-- ===== src/Uno/Race/Sound.antt =====
-- tcpcliserv/final_server.c: the calls of "uno" keep the game sound, and what they lead to.
use unpv13e.Base.{
  ℕ, ◌≤◌, ◌≡◌, refl, subst, List, [], ◌∷◌, Bool, true, false, ◌&&◌, not, Option, none, some, pos,
  ◌==◌, arith, Bool-cases, inl, inr,
}
use unpv13e.Uno.Arrays.{update}
use unpv13e.Uno.Text.{strtol, long_max}
use unpv13e.Uno.Turn.{taken}
use unpv13e.Uno.Game.{Game, Msg, wrong_uno, wrong_catch, tell_players}
use unpv13e.Uno.Draw.{give_card_to_player}
use unpv13e.Uno.Draw.Dealt.{IsDealt}
use unpv13e.Uno.Draw.Sound.{give_card_to_player-Given}
use unpv13e.Uno.Seated.{
  IsSeated, IsSound, SoundOr, recast, recast-IsSound, recast-IsDealt, self-IsSound, Given-SoundOr,
  wider-IsSound,
}
use unpv13e.Uno.Play.{Outcome, goes, ends}
use unpv13e.Uno.Race.{
  stamp, same_stamp, goes_on, is_zero, one_card, punished, own_uno, seat_of, caught_seat,
  first_named, catch_uno, fastest, called, too_late, resolved,
}

-- As `Proceeds`, and nothing is said of a line whose handling C leaves undefined.
abbrev pub Keeps : ℕ → Game → Option Outcome → Type 0
Keeps k g none = Unit
Keeps k g (some (goes g')) = IsSound k g g'
Keeps k g (some (ends g')) = IsDealt g'

-- A call of a seat that plays, or none, is noted.
pub calls-IsSound :
    (k : ℕ) (g g' : Game) (o : Option ℕ)
    → IsSound k g g'
    → ((h : ℕ) → o ≡ some h → taken (g'.hand_num h) ≡ true)
    → IsSound k g (record g' { have_uno = o })
calls-IsSound k g g' o s on = record {
  dealt = recast-IsDealt g' (record g' { have_uno = o }) s.dealt;
  seated = record {
    seat = s.seated.seat;
    plays = s.seated.plays;
    direction = s.seated.direction;
    players = s.seated.players;
    outside = s.seated.outside;
    caller = on;
  };
  used_up = s.used_up;
}

stamp-Keeps :
    (k i : ℕ) (ws : List (List ℕ)) (g g' : Game)
    → IsSound k g g'
    → Keeps k g (goes_on (stamp i ws g'))
unfolding stamp goes_on
stamp-Keeps k i [] g g' s = elim (Bool-cases (same_stamp (g'.time_stamp i) (pos long_max))) [
  | inl e ↦ rw e tt
  | inr e ↦ rw e s
]
stamp-Keeps k i (w ∷ ws) g g' s = elim (Bool-cases (same_stamp (g'.time_stamp i) (pos long_max))) [
  | inl e ↦
      rw e (recast-IsSound k g g' (record g' { time_stamp = update g'.time_stamp i (strtol w) }) s)
  | inr e ↦ rw e s
]

one_taken :
    (b : Bool) (o : Option ℕ)
    → (not b && elim o [ none ↦ false | some n ↦ n == 1 ]) ≡ true
    → taken o ≡ true
one_taken true o e = absurd (ground (arith, e))
one_taken false none e = e
one_taken false (some n) e = refl

one_card-taken : (i : ℕ) (g : Game) → one_card i g ≡ true → taken (g.hand_num i) ≡ true
unfolding one_card
one_card-taken i g e = one_taken (g.is_uno i) (g.hand_num i) e

punished-Keeps :
    (k : ℕ) (g : Game) (o : Option Game) (m : Msg) (used : ℕ → Option ℕ)
    → SoundOr k g o
    → Keeps k g (punished o (tell_players none m used))
unfolding punished tell_players
punished-Keeps k g none m used s = tt
punished-Keeps k g (some g') m used s = recast-IsSound k g g' (tell_players none m used g') s

penalty :
    (rand : ℕ → ℕ → ℕ) (i n : ℕ) (used : ℕ → Option ℕ) (g : Game)
    → IsDealt g
    → IsSeated g
    → taken (g.hand_num i) ≡ true
    → n ≤ g.card_num
    → SoundOr n g (give_card_to_player rand used i n g)
penalty rand i n used g d s on h =
    Given-SoundOr n i g _ (give_card_to_player-Given rand used i n g d on h) s

pub weaken : (k m : ℕ) (g : Game) (o : Option Outcome) → k ≤ m → Keeps k g o → Keeps m g o
weaken k m g none h s = tt
weaken k m g (some (goes g')) h s = wider-IsSound k m g g' h s
weaken k m g (some (ends g')) h s = s

pub own_uno-Keeps :
    (rand : ℕ → ℕ → ℕ) (i : ℕ) (ws : List (List ℕ)) (used : ℕ → Option ℕ) (g : Game)
    → IsDealt g
    → IsSeated g
    → taken (g.hand_num i) ≡ true
    → 2 ≤ g.card_num
    → Keeps 2 g (own_uno rand i ws used g)
unfolding own_uno
own_uno-Keeps rand i [] used g d s on h = tt
own_uno-Keeps rand i (op ∷ []) used g d s on h = tt
own_uno-Keeps rand i (op ∷ valid ∷ ws) used g d s on h = elim (Bool-cases (is_zero valid)) [
  | inl z ↦ rw z (punished-Keeps 2 g _ (wrong_uno (used i)) used (penalty rand i 2 used g d s on h))
  | inr z ↦ elim (Bool-cases (one_card i g)) [
    | inl one ↦
        rw (z, one)
          (weaken 0 2 g _ (omega arith) (
            stamp-Keeps 0 i ws g (record g { have_uno = some i })
              (calls-IsSound 0 g g (some i) (self-IsSound g d s)
                (λ k e. subst (λ t. taken (g.hand_num t) ≡ true) (ground (arith, e)) on))))
    | inr not_one ↦ rw (z, not_one) (wider-IsSound 0 2 g g (omega arith) (self-IsSound g d s))
  ]
]

caught_seat-Keeps :
    (i : ℕ) (ws : List (List ℕ)) (g : Game) (o : Option ℕ)
    → IsDealt g
    → IsSeated g
    → Keeps 0 g (caught_seat i ws g o)
unfolding caught_seat
caught_seat-Keeps i ws g none d s = tt
caught_seat-Keeps i ws g (some h) d s = elim (Bool-cases (one_card h g)) [
  | inl one ↦ rw one (
      stamp-Keeps 0 i ws g (record g { have_uno = some h })
        (calls-IsSound 0 g g (some h) (self-IsSound g d s) (λ k e.
          subst (λ t. taken (g.hand_num t) ≡ true) (ground (arith, e)) (one_card-taken h g one))))
  | inr not_one ↦
      rw not_one (calls-IsSound 0 g g none (self-IsSound g d s) (λ k e. absurd (ground (arith, e))))
]

pub catch_uno-Keeps :
    (rand : ℕ → ℕ → ℕ) (name : ℕ → List ℕ) (i : ℕ) (ws : List (List ℕ)) (used : ℕ → Option ℕ)
    (g : Game)
    → IsDealt g
    → IsSeated g
    → taken (g.hand_num i) ≡ true
    → 2 ≤ g.card_num
    → Keeps 2 g (catch_uno rand name i ws used g)
unfolding catch_uno
catch_uno-Keeps rand name i [] used g d s on h = tt
catch_uno-Keeps rand name i (op ∷ []) used g d s on h = tt
catch_uno-Keeps rand name i (op ∷ valid ∷ []) used g d s on h = elim (Bool-cases (is_zero valid)) [
  | inl z ↦ rw z tt
  | inr z ↦ rw z (weaken 0 2 g _ (omega arith) (caught_seat-Keeps i [] g g.have_uno d s))
]
catch_uno-Keeps rand name i (op ∷ valid ∷ word ∷ ws) used g d s on h =
    elim (Bool-cases (is_zero valid)) [
      | inl z ↦
          rw z (
            punished-Keeps 2 g _ (wrong_catch (used i) word) used
              (penalty rand i 2 used g d s on h))
      | inr z ↦ rw z (
          weaken 0 2 g _ (omega arith)
            (caught_seat-Keeps i ws g (first_named g.have_uno (seat_of name word g)) d s))
    ]

too_late-SoundOr :
    (h f : ℕ) (used : ℕ → Option ℕ) (g : Game) (o : Option Game)
    → SoundOr 2 g o
    → SoundOr 2 g (too_late h f used o)
unfolding too_late tell_players
too_late-SoundOr h f used g none s = s
too_late-SoundOr h f used g (some g') s =
    calls-IsSound 2 g (tell_players none _ used g') none
      (recast-IsSound 2 g g' (tell_players none _ used g') s) (λ k e. absurd (ground (arith, e)))

-- The calls of a sound game are settled, with at most two cards.
pub resolved-SoundOr :
    (rand : ℕ → ℕ → ℕ) (used : ℕ → Option ℕ) (g : Game) (o : Option ℕ)
    → IsDealt g
    → IsSeated g
    → ((c : ℕ) → o ≡ some c → taken (g.hand_num c) ≡ true)
    → 2 ≤ g.card_num
    → SoundOr 2 g (resolved rand used g o)
unfolding resolved called tell_players
resolved-SoundOr rand used g none d s on h =
    wider-IsSound 0 2 g g (omega arith) (self-IsSound g d s)
resolved-SoundOr rand used g (some c) d s on h = elim (Bool-cases (fastest c g == c)) [
  | inl safe ↦ rw safe (
      wider-IsSound 0 2 g (called c used g) (omega arith) (
        calls-IsSound 0 g (recast g (called c used g)) none
          (recast-IsSound 0 g g (called c used g) (self-IsSound g d s))
          (λ k e. absurd (ground (arith, e)))))
  | inr late ↦
      rw late
        (too_late-SoundOr c (fastest c g) used g _ (penalty rand c 2 used g d s (on c refl) h))
]
