-- ===== src/Server/Select.antt =====
-- tcpcliserv/tcpservselect01.c: the loop of the echo server that waits with `select`.
pub mod Table
pub mod Serve
pub mod Valid
pub mod Laws
pub mod Runs
use unpv13e.Base.{
  ℕ, zero, suc, List, [], ◌∷◌, ◌++◌, Bool, true, false, Option, none, some, ◌==◌, ltb,
  if◌then◌else◌, ℤ, pos, negsuc, ◌-ℤ◌, ltb_ℤ, replicate,
}

-- The table: `none` is the -1 of a free entry.
abbrev pub Clients : Type 0
Clients = List (Option ℕ)

pub record State : Type 0 where
  pub client : Clients
  pub maxi : ℤ
  pub maxfd : ℕ
  pub allset : ℕ → Bool

-- What is answered in one round: `rset` and `nready` by `Select`; the descriptor of `Accept`, or `none`
-- where it ends the process; what `Read` stored, or `none`; and whether the `Writen` or the
-- `Close` behind it comes back.
pub record Round : Type 0 where
  pub rset : ℕ → Bool
  pub nready : ℤ
  pub accept : Option ℕ
  pub read : ℕ → Option (List ℕ)
  pub fine : ℕ → Bool

pub data Ending : Type 0 where
  too_many_clients err_sys : Ending

pub data Effect : Type 0 where
  echoed : ℕ → List ℕ → Effect
  closed : ℕ → Effect

pub data Next : Type 0 where
  running : State → List Effect → Next
  ended : Ending → Next

abbrev pub fd_set : ℕ → (ℕ → Bool) → ℕ → Bool
fd_set fd s x = if x == fd then true else s x

abbrev pub fd_clr : ℕ → (ℕ → Bool) → ℕ → Bool
fd_clr fd s x = if x == fd then false else s x

-- The state in front of the loop. FD_SETSIZE is the system's.
abbrev pub initial : ℕ → ℕ → State
initial fd_setsize listenfd = record {
  client = replicate fd_setsize none;
  maxi = negsuc 0;
  maxfd = listenfd;
  allset = fd_set listenfd (λ x. false);
}

-- The first free entry takes the descriptor; `none` where there is none.
pub save : ℕ → Clients → Option (ℕ × Clients)
save connfd [] = none
save connfd (none ∷ cs) = some (0, some connfd ∷ cs)
save connfd (some fd ∷ cs) = elim (save connfd cs) [
  | none ↦ none
  | some (i, cs') ↦ some (suc i, some fd ∷ cs')
]

-- The number of entries with an index up to `maxi`.
abbrev pub upto : ℤ → ℕ
upto (pos n) = suc n
upto (negsuc n) = 0

-- The table and `allset` behind the loop over the clients, or an end.
pub data Served : Type 0 where
  served : Clients → (ℕ → Bool) → List Effect → Served
  failed : Ending → Served

-- An entry that is done, in front of the rest.
pub in_front : Option ℕ → List Effect → Served → Served
in_front entry es (served cs s es') = served (entry ∷ cs) s (es ++ es')
in_front entry es (failed e) = failed e

-- What `Read` gave on a client's descriptor: its entry, whether it is cleared, and what was done.
abbrev pub entry_after : ℕ → List ℕ → Option ℕ
entry_after fd [] = none
entry_after fd (b ∷ bs) = some fd

abbrev pub set_after : ℕ → List ℕ → (ℕ → Bool) → ℕ → Bool
set_after fd [] s = fd_clr fd s
set_after fd (b ∷ bs) s = s

abbrev pub effect_of : ℕ → List ℕ → Effect
effect_of fd [] = closed fd
effect_of fd (b ∷ bs) = echoed fd (b ∷ bs)

-- `next` goes on with the clients `cs` behind this one.
pub after_read :
    ((ℕ → Bool) → Served) → ℕ → Clients → Bool → Bool → (ℕ → Bool) → Option (List ℕ) → Served
after_read next fd cs fine last s none = failed err_sys
after_read next fd cs fine last s (some bs) =
    let es : List Effect = effect_of fd bs ∷ [] in
    let s' = set_after fd bs s in
    if fine
    then (if last
        then served (entry_after fd bs ∷ cs) s' es
        else in_front (entry_after fd bs) es (next s'))
    else failed err_sys

-- `for (i = 0; i <= maxi; i++)`, with `n` entries to go.
pub serve : Round → ℕ → Clients → ℤ → (ℕ → Bool) → Served
unfolding after_read in_front
serve r zero cs nready s = served cs s []
serve r (suc n) [] nready s = served [] s []
serve r (suc n) (none ∷ cs) nready s = in_front none [] (serve r n cs nready s)
serve r (suc n) (some fd ∷ cs) nready s =
    let nready' = nready -ℤ pos 1 in
    let ready =
      after_read (serve r n cs nready') fd cs (r.fine fd) (ltb_ℤ nready' (pos 1)) s (r.read fd) in
    let idle = in_front (some fd) [] (serve r n cs nready s) in if r.rset fd then ready else idle

abbrev pub to_next : ℤ → ℕ → Served → Next
to_next maxi maxfd (served cs s es) =
    running (record { client = cs; maxi = maxi; maxfd = maxfd; allset = s }) es
to_next maxi maxfd (failed e) = ended e

pub check_clients : Round → ℤ → State → Next
check_clients r nready s = to_next s.maxi s.maxfd (serve r (upto s.maxi) s.client nready s.allset)

-- The new descriptor, with the entry that it was saved in.
abbrev pub with_client : ℕ → State → ℕ × Clients → State
with_client connfd s (i, cs) = record {
  client = cs;
  maxi = if ltb_ℤ s.maxi (pos i) then pos i else s.maxi;
  maxfd = if ltb s.maxfd connfd then connfd else s.maxfd;
  allset = fd_set connfd s.allset;
}

pub saved : Round → State → ℕ → Option (ℕ × Clients) → Next
unfolding check_clients
saved r s connfd none = ended too_many_clients
saved r s connfd (some p) =
    let nready' = r.nready -ℤ pos 1 in
    let s' = with_client connfd s p in
    if ltb_ℤ nready' (pos 1) then running s' [] else check_clients r nready' s'

pub accepted : Round → State → Option ℕ → Next
unfolding save saved
accepted r s none = ended err_sys
accepted r s (some connfd) = saved r s connfd (save connfd s.client)

unfoldable pub round : ℕ → Round → State → Next
unfolding accepted check_clients serve
round listenfd r s = if r.rset listenfd then accepted r s r.accept else check_clients r r.nready s

-- The rounds of the `for` loop, with all that was done.
pub in_order : List Effect → Next → Next
in_order es (running s es') = running s (es ++ es')
in_order es (ended e) = ended e

pub next_round : (State → Next) → Next → Next
next_round again (running s es) = in_order es (again s)
next_round again (ended e) = ended e

unfoldable pub run : ℕ → List Round → State → Next
unfolding next_round in_order round
run listenfd [] s = running s []
run listenfd (r ∷ rs) s = next_round (run listenfd rs) (round listenfd r s)
