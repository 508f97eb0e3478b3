-- ===== src/Uno/Cards.antt =====
-- tcpcliserv/final_server.c: the cards with their names and scores, and what a card does.
use unpv13e.Base.{
  ℕ, List, [], ◌∷◌, Bool, false, ◌&&◌, Option, none, some, ◌==◌, ltb, leb, if◌then◌else◌, get_elem?,
}

-- A card's name: its kind and its colour.
pub record Name : Type 0 where
  pub kind : ℕ
  pub colour : ℕ

abbrev pub name : ℕ → ℕ → Name
name k c = record { kind = k; colour = c }

abbrev pub card_names : List Name
card_names =
    name b'0' b'r'
    ∷ name b'0' b'y'
    ∷ name b'0' b'g'
    ∷ name b'0' b'b'
    ∷ name b'1' b'r'
    ∷ name b'1' b'r'
    ∷ name b'1' b'y'
    ∷ name b'1' b'y'
    ∷ name b'1' b'g'
    ∷ name b'1' b'g'
    ∷ name b'1' b'b'
    ∷ name b'1' b'b'
    ∷ name b'2' b'r'
    ∷ name b'2' b'r'
    ∷ name b'2' b'y'
    ∷ name b'2' b'y'
    ∷ name b'2' b'g'
    ∷ name b'2' b'g'
    ∷ name b'2' b'b'
    ∷ name b'2' b'b'
    ∷ name b'3' b'r'
    ∷ name b'3' b'r'
    ∷ name b'3' b'y'
    ∷ name b'3' b'y'
    ∷ name b'3' b'g'
    ∷ name b'3' b'g'
    ∷ name b'3' b'b'
    ∷ name b'3' b'b'
    ∷ name b'4' b'r'
    ∷ name b'4' b'r'
    ∷ name b'4' b'y'
    ∷ name b'4' b'y'
    ∷ name b'4' b'g'
    ∷ name b'4' b'g'
    ∷ name b'4' b'b'
    ∷ name b'4' b'b'
    ∷ name b'5' b'r'
    ∷ name b'5' b'r'
    ∷ name b'5' b'y'
    ∷ name b'5' b'y'
    ∷ name b'5' b'g'
    ∷ name b'5' b'g'
    ∷ name b'5' b'b'
    ∷ name b'5' b'b'
    ∷ name b'6' b'r'
    ∷ name b'6' b'r'
    ∷ name b'6' b'y'
    ∷ name b'6' b'y'
    ∷ name b'6' b'g'
    ∷ name b'6' b'g'
    ∷ name b'6' b'b'
    ∷ name b'6' b'b'
    ∷ name b'7' b'r'
    ∷ name b'7' b'r'
    ∷ name b'7' b'y'
    ∷ name b'7' b'y'
    ∷ name b'7' b'g'
    ∷ name b'7' b'g'
    ∷ name b'7' b'b'
    ∷ name b'7' b'b'
    ∷ name b'8' b'r'
    ∷ name b'8' b'r'
    ∷ name b'8' b'y'
    ∷ name b'8' b'y'
    ∷ name b'8' b'g'
    ∷ name b'8' b'g'
    ∷ name b'8' b'b'
    ∷ name b'8' b'b'
    ∷ name b'9' b'r'
    ∷ name b'9' b'r'
    ∷ name b'9' b'y'
    ∷ name b'9' b'y'
    ∷ name b'9' b'g'
    ∷ name b'9' b'g'
    ∷ name b'9' b'b'
    ∷ name b'9' b'b'
    ∷ name b'a' b'r'
    ∷ name b'a' b'r'
    ∷ name b'a' b'y'
    ∷ name b'a' b'y'
    ∷ name b'a' b'g'
    ∷ name b'a' b'g'
    ∷ name b'a' b'b'
    ∷ name b'a' b'b'
    ∷ name b'b' b'r'
    ∷ name b'b' b'r'
    ∷ name b'b' b'y'
    ∷ name b'b' b'y'
    ∷ name b'b' b'g'
    ∷ name b'b' b'g'
    ∷ name b'b' b'b'
    ∷ name b'b' b'b'
    ∷ name b'c' b'r'
    ∷ name b'c' b'r'
    ∷ name b'c' b'y'
    ∷ name b'c' b'y'
    ∷ name b'c' b'g'
    ∷ name b'c' b'g'
    ∷ name b'c' b'b'
    ∷ name b'c' b'b'
    ∷ name b'd' b'x'
    ∷ name b'd' b'x'
    ∷ name b'd' b'x'
    ∷ name b'd' b'x'
    ∷ name b'e' b'x'
    ∷ name b'e' b'x'
    ∷ name b'e' b'x'
    ∷ name b'e' b'x'
    ∷ []

abbrev pub scores : List ℕ
scores =
    0 ∷ 0 ∷ 0 ∷ 0 ∷ 1 ∷ 1 ∷ 1 ∷ 1 ∷ 1 ∷ 1 ∷ 1 ∷ 1 ∷ 2 ∷ 2 ∷ 2 ∷ 2 ∷ 2 ∷ 2 ∷ 2 ∷ 2 ∷ 3 ∷ 3 ∷ 3 ∷ 3
    ∷ 3 ∷ 3 ∷ 3 ∷ 3 ∷ 4 ∷ 4 ∷ 4 ∷ 4 ∷ 4 ∷ 4 ∷ 4 ∷ 4 ∷ 5 ∷ 5 ∷ 5 ∷ 5 ∷ 5 ∷ 5 ∷ 5 ∷ 5 ∷ 6 ∷ 6 ∷ 6 ∷ 6
    ∷ 6 ∷ 6 ∷ 6 ∷ 6 ∷ 7 ∷ 7 ∷ 7 ∷ 7 ∷ 7 ∷ 7 ∷ 7 ∷ 7 ∷ 8 ∷ 8 ∷ 8 ∷ 8 ∷ 8 ∷ 8 ∷ 8 ∷ 8 ∷ 9 ∷ 9 ∷ 9 ∷ 9
    ∷ 9 ∷ 9 ∷ 9 ∷ 9 ∷ 20 ∷ 20 ∷ 20 ∷ 20 ∷ 20 ∷ 20 ∷ 20 ∷ 20 ∷ 20 ∷ 20 ∷ 20 ∷ 20 ∷ 20 ∷ 20 ∷ 20 ∷ 20
    ∷ 20 ∷ 20 ∷ 20 ∷ 20 ∷ 20 ∷ 20 ∷ 20 ∷ 20 ∷ 50 ∷ 50 ∷ 50 ∷ 50 ∷ 50 ∷ 50 ∷ 50 ∷ 50 ∷ []

unfoldable pub or_else : {A : Type 0} → A → Option A → A
or_else a none = a
or_else a (some b) = b

-- cards[i] and score[i]: the indices stay below 108.
unfoldable pub cards : ℕ → Name
unfolding or_else
cards i = or_else (name 0 0) (get_elem? card_names i)

unfoldable pub score : ℕ → ℕ
unfolding or_else
score i = or_else 0 (get_elem? scores i)

-- strcmp of the name of a card with a text.
unfoldable pub has_name : ℕ → List ℕ → Bool
unfolding cards
has_name i [] = false
has_name i (a ∷ []) = false
has_name i (a ∷ b ∷ []) = (cards i).kind == a && (cards i).colour == b
has_name i (a ∷ b ∷ c ∷ r) = false

-- What a card that is played does to the players behind.
pub data Effect : Type 0 where
  skip : Effect
  turns : Effect
  draw : ℕ → Effect
  plain : Effect

unfoldable pub effect : ℕ → Effect
effect c =
    if leb 76 c && ltb c 84
    then skip
    else if leb 84 c && ltb c 92
    then turns
    else if leb 92 c && ltb c 100
    then draw 2
    else if leb 104 c && ltb c 108
    then draw 4
    else plain
