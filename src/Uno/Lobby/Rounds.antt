-- ===== src/Uno/Lobby/Rounds.antt =====
-- tcpcliserv/final_server.c: a round of the loop of main keeps the list and the number right.
use unpv13e.Base.{
  ℕ, ◌≤◌, ◌<◌, ◌≡◌, refl, sym, ap, subst, ◌∙◌, List, [], ◌∷◌, ◌++◌, Bool, true, false, ◌&&◌, ◌||◌,
  not, Option, none, some, ◌==◌, ltb, if◌then◌else◌, arith, Bool-cases, inl, inr,
}
use unpv13e.Uno.Arrays.{
  update, count_below, count_ext, count_on, count_all_off, all_on, FindsFrom, find_from-FindsFrom,
}
use unpv13e.Uno.Server.{Server, Args, max_player}
use unpv13e.Uno.Lobby.{
  Lobby, find_empty, prune, accepted, read_line, read_all, watched, with_server, listened,
  main_round, started,
}
use unpv13e.Uno.Rooms.Kept.{AllKept}
use unpv13e.Uno.Lobby.Sound.{mem, AllBelow, Agrees, AgreesOr, read_line-AgreesOr}

-- The list and the state of the lobby agree.
abbrev pub IsSound : Lobby → Type 0
IsSound w = Agrees w.used w.server × AllBelow 45 w.used

abbrev pub SoundOr : Option Lobby → Type 0
SoundOr none = Unit
SoundOr (some w) = IsSound w

read_one-AgreesOr :
    (l : List ℕ) (i : ℕ) (input : Option (List ℕ)) (s : Server)
    → i < 45
    → Agrees l s
    → AgreesOr l (if s.state i == 1 then read_line i input s else some s)
read_one-AgreesOr l i input s lt a = elim (Bool-cases (s.state i == 1)) [
  | inl on ↦
      subst (λ b. AgreesOr l (if b then read_line i input s else some s)) (sym on)
        (read_line-AgreesOr i s on l input lt a)
  | inr off ↦ subst (λ b. AgreesOr l (if b then read_line i input s else some s)) (sym off) a
]

read_on :
    (l : List ℕ) (next : Server → Option Server) (o : Option Server)
    → AgreesOr l o
    → ((t : Server) → Agrees l t → AgreesOr l (next t))
    → AgreesOr l (elim o [ none ↦ none | some t ↦ next t ])
read_on l next none a go = tt
read_on l next (some t) a go = go t a

read_all-AgreesOr :
    (l rest : List ℕ) (input : ℕ → Option (List ℕ)) (s : Server)
    → AllBelow 45 rest
    → Agrees l s
    → AgreesOr l (read_all input rest s)
unfolding read_all
read_all-AgreesOr l [] input s b a = a
read_all-AgreesOr l (i ∷ rest) input s b a =
    read_on l (λ t. read_all input rest t)
      (if s.state i == 1 then read_line i (input i) s else some s)
      (read_one-AgreesOr l i (input i) s b.0 a) (λ t at. read_all-AgreesOr l rest input t b.1 at)

with_server-SoundOr :
    (w : Lobby) (o : Option Server)
    → AllBelow 45 w.used
    → AgreesOr w.used o
    → SoundOr (with_server w o)
unfolding with_server
with_server-SoundOr w none b a = tt
with_server-SoundOr w (some s) b a = (a, b)

mem-prune :
    (state : ℕ → ℕ) (i : ℕ) (l : List ℕ)
    → (state i == 0) ≡ false
    → mem i l ≡ true
    → mem i (prune state l) ≡ true
unfolding prune
mem-prune state i [] e m = m
mem-prune state i (j ∷ l) e m = elim (Bool-cases (i == j)) [
  | inl at ↦ ground (arith, at, e, ap state)
  | inr off ↦ ground (arith, off, mem-prune state i l e, m)
]

AllBelow-prune : (state : ℕ → ℕ) (n : ℕ) (l : List ℕ) → AllBelow n l → AllBelow n (prune state l)
unfolding prune
AllBelow-prune state n [] b = tt
AllBelow-prune state n (j ∷ l) b = elim (Bool-cases (state j == 0)) [
  | inl e ↦ rw e (AllBelow-prune state n l b.1)
  | inr e ↦ rw e (b.0, AllBelow-prune state n l b.1)
]

pub prune-IsSound :
    (w : Lobby) → IsSound w → IsSound (record w { used = prune w.server.state w.used })
prune-IsSound w (a, b) = (
  record {
    counted = a.counted;
    listed = λ i lt e. mem-prune w.server.state i w.used e (a.listed i lt e);
  },
  AllBelow-prune w.server.state 45 w.used b,
)

mem-append : (i j : ℕ) (l : List ℕ) → mem i (l ++ j ∷ []) ≡ (mem i l || (i == j))
mem-append i j [] = ground arith
mem-append i j (k ∷ l) = ground (arith, mem-append i j l)

AllBelow-append : (n j : ℕ) (l : List ℕ) → AllBelow n l → j < n → AllBelow n (l ++ j ∷ [])
AllBelow-append n j [] b lt = (lt, tt)
AllBelow-append n j (k ∷ l) b lt = (b.0, AllBelow-append n j l b.1 lt)

accepted-IsSound :
    (i : ℕ) (w : Lobby)
    → i < 45
    → (w.server.state i == 0) ≡ true
    → IsSound w
    → IsSound (accepted i w)
unfolding accepted
accepted-IsSound i w lt free (a, b) = (
  record {
    counted =
        let s = w.server.state in
        let c = count_on 45 (λ j. not (s j == 0)) i lt (ground (arith, free)) in
        count_ext 45 (λ j. not (update s i 1 j == 0)) (update (λ j. not (s j == 0)) i true)
          (λ j l. ground arith)
        ∙ omega (arith, c, a.counted);
    listed = λ j l e. elim (Bool-cases (j == i)) [
      | inl at ↦ ground (arith, at, mem-append j i w.used)
      | inr off ↦ ground (arith, off, mem-append j i w.used, a.listed j l, e)
    ];
  },
  AllBelow-append 45 i w.used b lt,
)

abbrev pub FindsEmpty : Server → Option ℕ → Type 0
FindsEmpty s none = 45 ≤ s.global_player_num
FindsEmpty s (some i) = (i < 45) × ((s.state i == 0) ≡ true)

finds :
    (s : Server) (o : Option ℕ)
    → count_below 45 (λ i. not (s.state i == 0)) ≡ s.global_player_num
    → FindsFrom 45 0 (λ i. s.state i == 0) o
    → FindsEmpty s o
finds s none c f = omega (
  arith,
  c,
  all_on 45 (λ i. not (s.state i == 0)) (λ j l. rw (f j (omega arith) (omega arith)) refl),
)
finds s (some i) c (lo, hi, t, first) = (omega arith, t)

-- Where the number of players is right: `FindEmpty` gives a free entry of conns[], and -1 only where
-- all 45 are used.
pub find_empty-FindsEmpty : (l : List ℕ) (s : Server) → Agrees l s → FindsEmpty s (find_empty s)
unfolding find_empty
find_empty-FindsEmpty l s a = finds s _ a.counted (find_from-FindsFrom 45 0 (λ i. s.state i == 0))

listened-SoundOr :
    (ok : Bool) (input : ℕ → Option (List ℕ)) (w : Lobby) (o : Option ℕ)
    → FindsEmpty w.server o
    → IsSound w
    → SoundOr (listened ok input w o)
unfolding listened
listened-SoundOr ok input w none f s = s
listened-SoundOr false input w (some i) f s = s
listened-SoundOr true input w (some i) (lt, free) s =
    let w' = accepted i w in
    let (a, b) = accepted-IsSound i w lt free s in
    with_server-SoundOr w' (read_all input w'.used w'.server) b
      (read_all-AgreesOr w'.used w'.used input w'.server b a)

-- After a round of the main loop, with a client waiting or not, and with any lines, where C defines
-- what they come to: each connection with a state stands in the list, and the number of players is
-- the number of these connections.
pub main_round-SoundOr :
    (client ok : Bool) (input : ℕ → Option (List ℕ)) (w : Lobby)
    → IsSound w
    → SoundOr (main_round client ok input w)
unfolding main_round
main_round-SoundOr client ok input w s =
    let p = record w { used = prune w.server.state w.used } in
    let (a, b) = prune-IsSound w s in
    let ready = watched w.server input in
    elim (Bool-cases (ltb w.server.global_player_num max_player && client)) [
      | inl e ↦ rw e (
          listened-SoundOr ok ready p (find_empty w.server)
            (find_empty-FindsEmpty p.used p.server a) (a, b))
      | inr e ↦ rw e (
          with_server-SoundOr p (read_all ready p.used p.server) b
            (read_all-AgreesOr p.used p.used ready p.server b a))
    ]

-- At the start all agrees, and all rooms are free.
pub started-IsSound : (r h : ℕ → Args) (name : ℕ → List ℕ) → IsSound (started r h name)
unfolding started
started-IsSound r h name = (
  record {
    counted = count_all_off 45 _ (λ i lt. refl);
    listed = λ i lt e. absurd (ground (arith, e));
  },
  tt,
)

pub started-AllKept : (r h : ℕ → Args) (name : ℕ → List ℕ) → AllKept (started r h name).server
unfolding started
started-AllKept r h name n = record {
  counted = count_all_off 10 _ (λ i lt. refl);
  free = λ e. refl;
  filled = λ e. absurd (ground (arith, e));
}
