-- ===== src/Dial/First.antt =====
-- lib/tcp_connect.c and its kin: the loop over the structures, as a relation.
use unpv13e.Base.{◌≡◌, refl, ap, List, [], ◌∷◌, ◌++◌}
use unpv13e.Gai.Types.{Addrinfo}
use unpv13e.Dial.{Attempt, break, next, fatal, Tried, found, exhausted, quit, after_try, try_each}

module _ {W : Type 0} where
  -- Each structure of the list is passed over, from one state of the kernel to another.
  pub data Skips (attempt : Addrinfo → W → Attempt W) : List Addrinfo → W → W → Type 0 where
    no_more : {w : W} → Skips attempt [] w w
    skip :
        {ai : Addrinfo} {l : List Addrinfo} {w w' w'' : W}
        → attempt ai w ≡ next w'
        → Skips attempt l w' w''
        → Skips attempt (ai ∷ l) w w''

  -- The structures in front of `ai` are passed over, and the attempt at `ai` comes to `a`.
  pub record Stops (attempt : Addrinfo → W → Attempt W) (l : List Addrinfo) (w : W) (ai : Addrinfo)
      (a : Attempt W) : Type 0 where
    pub front : List Addrinfo
    pub back : List Addrinfo
    pub there : W
    pub list : l ≡ front ++ (ai ∷ back)
    pub skips : Skips attempt front w there
    pub here : attempt ai there ≡ a

  abbrev pub First : (Addrinfo → W → Attempt W) → List Addrinfo → W → Tried W → Type 0
  First attempt l w (found fd ai w') = Stops attempt l w ai (break fd w')
  First attempt l w (exhausted w') = Skips attempt l w w'
  First attempt l w (quit w') = (ai : Addrinfo) × Stops attempt l w ai (fatal w')

  later :
      (attempt : Addrinfo → W → Attempt W) (ai ai' : Addrinfo) (l : List Addrinfo) (w w' : W)
      (a : Attempt W)
      → attempt ai w ≡ next w'
      → Stops attempt l w' ai' a
      → Stops attempt (ai ∷ l) w ai' a
  later attempt ai ai' l w w' a e s = record {
    front = ai ∷ s.front;
    back = s.back;
    there = s.there;
    list = ap (◌∷◌ ai) s.list;
    skips = skip e s.skips;
    here = s.here;
  }

  later-First :
      (attempt : Addrinfo → W → Attempt W) (ai : Addrinfo) (l : List Addrinfo) (w w' : W)
      (t : Tried W)
      → attempt ai w ≡ next w'
      → First attempt l w' t
      → First attempt (ai ∷ l) w t
  later-First attempt ai l w w' (found fd ai' w'') e s = later attempt ai ai' l w w' _ e s
  later-First attempt ai l w w' (exhausted w'') e s = skip e s
  later-First attempt ai l w w' (quit w'') e (ai', s) = (ai', later attempt ai ai' l w w' _ e s)

  at_once :
      (attempt : Addrinfo → W → Attempt W) (ai : Addrinfo) (l : List Addrinfo) (w : W)
      (a : Attempt W)
      → attempt ai w ≡ a
      → Stops attempt (ai ∷ l) w ai a
  at_once attempt ai l w a e = record {
    front = [];
    back = l;
    there = w;
    list = refl;
    skips = no_more;
    here = e;
  }

  after_try-First :
      (attempt : Addrinfo → W → Attempt W) (ai : Addrinfo) (l : List Addrinfo) (w : W)
      (a : Attempt W)
      → attempt ai w ≡ a
      → ((w' : W) → First attempt l w' (try_each attempt l w'))
      → First attempt (ai ∷ l) w (after_try ai (try_each attempt l) a)
  unfolding after_try
  after_try-First attempt ai l w (break fd w') e rest = at_once attempt ai l w _ e
  after_try-First attempt ai l w (next w') e rest = later-First attempt ai l w w' _ e (rest w')
  after_try-First attempt ai l w (fatal w') e rest = (ai, at_once attempt ai l w _ e)

  -- The loop over the structures finds a descriptor for a structure that could be taken, with those
  -- in front of it passed over one after the other; or all are passed over; or it ends in a wrapper
  -- at a structure, with those in front of it passed over.
  pub try_each-First :
      (attempt : Addrinfo → W → Attempt W) (l : List Addrinfo) (w : W)
      → First attempt l w (try_each attempt l w)
  unfolding try_each
  try_each-First attempt [] w = no_more
  try_each-First attempt (ai ∷ l) w =
      after_try-First attempt ai l w (attempt ai w) refl (try_each-First attempt l)
