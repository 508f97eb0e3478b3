-- ===== src/Uno/Race.antt =====
-- tcpcliserv/final_server.c: the calls of "uno" in GameStart, and who was the first.
pub mod Decides
pub mod Order
pub mod Sound
use unpv13e.Base.{
  ℕ, zero, suc, ◌+◌, ◌-◌, ◌++◌, List, [], ◌∷◌, Bool, true, false, ◌&&◌, ◌||◌, not, Option, none,
  some, ℤ, pos, ltb_ℤ, ◌==◌, ltb, leb, if◌then◌else◌,
}
use unpv13e.Uno.Arrays.{update, find_from}
use unpv13e.Uno.Text.{same_text, strtol, long_max}
use unpv13e.Uno.Turn.{taken}
use unpv13e.Uno.Game.{Game, wrong_uno, wrong_catch, uno, caught, tell_players}
use unpv13e.Uno.Draw.{give_card_to_player}
use unpv13e.Uno.Play.{Outcome, goes}

abbrev pub same_stamp : ℤ → ℤ → Bool
same_stamp a b = not (ltb_ℤ a b) && not (ltb_ℤ b a)

-- if(time_stamp[i] == LONG_MAX) time_stamp[i] = strtol(...): `none` where the word is missing.
unfoldable pub stamp : ℕ → List (List ℕ) → Game → Option Game
stamp i [] g = if same_stamp (g.time_stamp i) (pos long_max) then none else some g
stamp i (w ∷ ws) g = some (
    if same_stamp (g.time_stamp i) (pos long_max)
    then record g { time_stamp = update g.time_stamp i (strtol w) }
    else g)

unfoldable pub goes_on : Option Game → Option Outcome
goes_on none = none
goes_on (some g) = some (goes g)

-- valid[0] == '0'
unfoldable pub is_zero : List ℕ → Bool
is_zero [] = false
is_zero (c ∷ r) = c == b'0'

-- !is_uno[i] && hand_num[i] == 1
unfoldable pub one_card : ℕ → Game → Bool
one_card i g = not (g.is_uno i) && elim (g.hand_num i) [ none ↦ false | some n ↦ n == 1 ]

-- Two cards for a wrong call, and all are told.
unfoldable pub punished : Option Game → (Game → Game) → Option Outcome
punished none told = none
punished (some g) told = some (goes (told g))

unfoldable pub own_uno : (ℕ → ℕ → ℕ) → ℕ → List (List ℕ) → (ℕ → Option ℕ) → Game → Option Outcome
own_uno rand i (op ∷ valid ∷ ws) used g =
    if is_zero valid
    then punished (give_card_to_player rand used i 2 g)
        (tell_players none (wrong_uno (used i)) used)
    else if one_card i g
    then goes_on (stamp i ws (record g { have_uno = some i }))
    else some (goes g)
own_uno rand i ws used g = none

-- The seat whose count is not -1 and for which conns[seat].name is the word.
unfoldable pub seat_of : (ℕ → List ℕ) → List ℕ → Game → Option ℕ
seat_of name word g = find_from 10 0 (λ j. taken (g.hand_num j) && same_text (name j) word)

-- With no seat is_uno[-1] is read: `none`.
unfoldable pub caught_seat : ℕ → List (List ℕ) → Game → Option ℕ → Option Outcome
caught_seat i ws g none = none
caught_seat i ws g (some h) =
    if one_card h g
    then goes_on (stamp i ws (record g { have_uno = some h }))
    else some (goes (record g { have_uno = none }))

unfoldable pub first_named : Option ℕ → Option ℕ → Option ℕ
first_named none o = o
first_named (some h) o = some h

unfoldable pub catch_uno :
    (ℕ → ℕ → ℕ) → (ℕ → List ℕ) → ℕ → List (List ℕ) → (ℕ → Option ℕ) → Game → Option Outcome
catch_uno rand name i (op ∷ valid ∷ word ∷ ws) used g =
    if is_zero valid
    then punished (give_card_to_player rand used i 2 g)
        (tell_players none (wrong_catch (used i) word) used)
    else caught_seat i ws g (first_named g.have_uno (seat_of name word g))
catch_uno rand name i (op ∷ valid ∷ []) used g =
    if is_zero valid then none else caught_seat i [] g g.have_uno
catch_uno rand name i ws used g = none

-- The seat with the least timestamp, of seat 0 and the seats that play, `k` of them from `i` on.
unfoldable pub fastest_from : ℕ → ℕ → ℕ → ℕ → Game → ℕ
fastest_from zero i h fastest g = fastest
fastest_from (suc k) i h fastest g =
    fastest_from k (suc i) h
      (if not (taken (g.hand_num i))
        then fastest
        else if ltb_ℤ (g.time_stamp i) (g.time_stamp fastest)
        then i
        else if same_stamp (g.time_stamp i) (g.time_stamp fastest) && i == h
        then i
        else fastest)
      g

unfoldable pub fastest : ℕ → Game → ℕ
fastest h g = fastest_from 9 1 h 0 g

unfoldable pub called : ℕ → (ℕ → Option ℕ) → Game → Game
called h used g =
    record (tell_players none (uno (used h)) used (record g { is_uno = update g.is_uno h true })) {
      have_uno = none;
    }

-- The line names conns[have_uno] and conns[fastest], not the players of these seats.
unfoldable pub too_late : ℕ → ℕ → (ℕ → Option ℕ) → Option Game → Option Game
too_late h f used none = none
too_late h f used (some g) =
    some (record (tell_players none (caught h f) used g) { have_uno = none })

unfoldable pub resolved : (ℕ → ℕ → ℕ) → (ℕ → Option ℕ) → Game → Option ℕ → Option Game
resolved rand used g none = some g
resolved rand used g (some h) =
    if fastest h g == h
    then some (called h used g)
    else too_late h (fastest h g) used (give_card_to_player rand used h 2 g)
