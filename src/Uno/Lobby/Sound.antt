-- ===== src/Uno/Lobby/Sound.antt =====
-- tcpcliserv/final_server.c: the list of the lobby and the number of players agree with the states of
-- the connections.
use unpv13e.Base.{
  ℕ, zero, suc, ◌<◌, ◌≡◌, refl, sym, ap, ◌∙◌, List, [], ◌∷◌, Bool, true, false, ◌&&◌, ◌||◌, not,
  Option, none, some, ℤ, pos, negsuc, ◌==◌, ltb, arith, Bool-cases, inl, inr,
}
use unpv13e.Uno.Arrays.{update, count_below, count_ext, count_off}
use unpv13e.Uno.Text.{tokens, before_newline, same_text, strtol}
use unpv13e.Uno.Server.{Server, Reply, say, max_player, log_in}
use unpv13e.Uno.Lobby.{
  handle_login, departs, fits, no_percent, set_name, hand_over, to_number, login, token,
  enter_number, command, read_line,
}

abbrev pub mem : ℕ → List ℕ → Bool
mem x [] = false
mem x (i ∷ l) = (x == i) || mem x l

abbrev pub AllBelow : ℕ → List ℕ → Type 0
AllBelow n [] = Unit
AllBelow n (i ∷ l) = (i < n) × AllBelow n l

-- The number of players is that of the connections with a state, these stand in the list, and the
-- list has indices of conns[] only.
pub record Agrees (l : List ℕ) (s : Server) : Type 0 where
  pub counted : count_below 45 (λ i. not (s.state i == 0)) ≡ s.global_player_num
  pub listed : (i : ℕ) → i < 45 → (s.state i == 0) ≡ false → mem i l ≡ true

abbrev pub AgreesOr : List ℕ → Option Server → Type 0
AgreesOr l none = Unit
AgreesOr l (some s) = Agrees l s

-- No connection gets a state or loses its state.
abbrev Quiet : Server → Server → Type 0
Quiet s t =
    ((j : ℕ) → (t.state j == 0) ≡ (s.state j == 0)) × (t.global_player_num ≡ s.global_player_num)

abbrev QuietOr : Server → Option Server → Type 0
QuietOr s none = Unit
QuietOr s (some t) = Quiet s t

Quiet-Agrees : (l : List ℕ) (s t : Server) → Agrees l s → Quiet s t → Agrees l t
Quiet-Agrees l s t a (same, num) = record {
  counted = count_ext 45 _ _ (λ i lt. ap not (same i)) ∙ a.counted ∙ sym num;
  listed = λ i lt e. a.listed i lt (sym (same i) ∙ e);
}

QuietOr-AgreesOr :
    (l : List ℕ) (s : Server) (o : Option Server) → Agrees l s → QuietOr s o → AgreesOr l o
QuietOr-AgreesOr l s none a q = tt
QuietOr-AgreesOr l s (some t) a q = Quiet-Agrees l s t a q

say-Quiet : (i : ℕ) (m : Reply) (s : Server) → Quiet s (say i m s)
unfolding say
say-Quiet i m s = (λ j. refl, refl)

hand_over-Quiet :
    (i : ℕ) (o : Option ℕ) (b : Bool) (s : Server)
    → (s.state i == 1) ≡ true
    → Quiet s (hand_over i o b s)
unfolding hand_over
hand_over-Quiet i o b s on = (λ j. ground (arith, on), refl)

module _ (i : ℕ) (s : Server) (on : (s.state i == 1) ≡ true) where
  to_number-QuietOr : (n : ℤ) → QuietOr s (to_number i n s)
  unfolding to_number
  to_number-QuietOr (pos n) = elim (Bool-cases (ltb n max_player)) [
    | inl e ↦ rw e (hand_over-Quiet i (some n) false s on)
    | inr e ↦ rw e tt
  ]
  to_number-QuietOr (negsuc zero) = hand_over-Quiet i none false s on
  to_number-QuietOr (negsuc (suc n)) = tt

  enter_number-QuietOr : (ws : List (List ℕ)) → QuietOr s (enter_number i ws s)
  unfolding enter_number
  enter_number-QuietOr [] = tt
  enter_number-QuietOr (w ∷ ws) = to_number-QuietOr (strtol w)

  login-QuietOr : (ws : List (List ℕ)) → QuietOr s (login i ws s)
  unfolding login set_name say
  login-QuietOr [] = tt
  login-QuietOr (kind ∷ []) = elim (Bool-cases (same_text kind (b'1' ∷ []))) [
    | inl e ↦ rw e tt
    | inr e ↦ rw e (λ j. refl, refl)
  ]
  login-QuietOr (kind ∷ text ∷ r) = elim (Bool-cases (same_text kind (b'1' ∷ []))) [
    | inl e ↦ elim (Bool-cases (handle_login text i s)) [
      | inl new ↦ elim (Bool-cases (fits text)) [
        | inl fit ↦ rw (e, new, fit) (λ j. refl, refl)
        | inr fit ↦ rw (e, new, fit) tt
      ]
      | inr old ↦ rw (e, old) (λ j. refl, refl)
    ]
    | inr e ↦ rw e (λ j. refl, refl)
  ]

  token-QuietOr : (op : List ℕ) (ws : List (List ℕ)) → QuietOr s (token i op ws s)
  unfolding token set_name say
  token-QuietOr op [] = tt
  token-QuietOr op (flag ∷ r) = elim (Bool-cases (fits op && no_percent op)) [
    | inl e ↦ elim (Bool-cases (same_text flag (b'1' ∷ []))) [
      | inl f ↦ rw (e, f) (λ j. refl, refl)
      | inr f ↦ rw (e, f) (λ j. refl, refl)
    ]
    | inr e ↦ rw e tt
  ]

  command-QuietOr : (ws : List (List ℕ)) → QuietOr s (command i ws s)
  unfolding command
  command-QuietOr [] = tt
  command-QuietOr ([] ∷ r) = tt
  command-QuietOr ((c ∷ op) ∷ r) = elim (Bool-cases (same_text (c ∷ op) (b'1' ∷ []))) [
    | inl e ↦ rw e (say-Quiet i log_in s)
    | inr e1 ↦ elim (Bool-cases (ltb c b'0' || ltb b'9' c)) [
      | inl e ↦ rw (e1, e) (token-QuietOr (c ∷ op) r)
      | inr e2 ↦ elim (Bool-cases (same_text (c ∷ op) (b'2' ∷ []))) [
        | inl e ↦ rw (e1, e2, e) (login-QuietOr r)
        | inr e3 ↦ elim (Bool-cases (same_text (c ∷ op) (b'3' ∷ []))) [
          | inl e ↦ rw (e1, e2, e3, e) (hand_over-Quiet i none false s on)
          | inr e4 ↦ elim (Bool-cases (same_text (c ∷ op) (b'4' ∷ []))) [
            | inl e ↦ rw (e1, e2, e3, e4, e) (enter_number-QuietOr r)
            | inr e5 ↦ elim (Bool-cases (same_text (c ∷ op) (b'5' ∷ []))) [
              | inl e ↦ rw (e1, e2, e3, e4, e5, e) (hand_over-Quiet i none true s on)
              | inr e6 ↦ rw (e1, e2, e3, e4, e5, e6) (λ j. refl, refl)
            ]
          ]
        ]
      ]
    ]
  ]

  departs-Agrees : (l : List ℕ) → i < 45 → Agrees l s → Agrees l (departs i s)
  unfolding departs
  departs-Agrees l lt a = record {
    counted =
        let c = count_off 45 (λ j. not (s.state j == 0)) i lt (ground (arith, on)) in
        count_ext 45 (λ j. not (update s.state i 0 j == 0))
          (update (λ j. not (s.state j == 0)) i false) (λ j l'. ground arith)
        ∙ omega (arith, c, a.counted);
    listed = λ j l' e. a.listed j l' (ground (arith, e));
  }

  pub read_line-AgreesOr :
      (l : List ℕ) (input : Option (List ℕ))
      → i < 45
      → Agrees l s
      → AgreesOr l (read_line i input s)
  unfolding read_line
  read_line-AgreesOr l none lt a = a
  read_line-AgreesOr l (some []) lt a = departs-Agrees l lt a
  read_line-AgreesOr l (some (c ∷ r)) lt a =
      QuietOr-AgreesOr l s _ a (command-QuietOr (tokens (before_newline (c ∷ r))))
