-- ===== src/Server/Prefork.antt =====
-- server/serv05.c, server/child.h: a pool of children made in advance; the parent accepts each
-- connection and passes its descriptor to a child that is free.
pub mod Collect
pub mod Laws
use unpv13e.Base.{
  ℕ, zero, suc, ◌+◌, List, [], ◌∷◌, Bool, true, false, not, ◌&&◌, Option, none, some, ◌==◌,
  if◌then◌else◌, ℤ, pos, negsuc, ◌+ℤ◌, ◌-ℤ◌, ltb_ℤ,
}

-- `Child`; the process number is not used by the loop.
pub record Child : Type 0 where
  pub pipefd : ℕ
  pub status : ℕ
  pub count : ℕ

pub record Server : Type 0 where
  pub children : List Child
  pub navail : ℤ

-- What `Read` of one byte from a child's pipe gives.
pub data ReadByte : Type 0 where
  one_byte terminated read_error : ReadByte

-- What the kernel answers in a round: the bits that `Select` leaves in `rset`, and their number; the
-- descriptor that `Accept` gives, if it does; and the read on each pipe.
pub record Round : Type 0 where
  pub rset : ℕ → Bool
  pub nsel : ℤ
  pub accept : Option ℕ
  pub reads : ℕ → ReadByte

pub data Ending : Type 0 where
  no_available_children child_terminated err_sys : Ending

-- `running s passed`: the loop goes on; `passed` holds the pipe and the descriptor that went over it.
pub data Next : Type 0 where
  running : Server → List (ℕ × ℕ) → Next
  ended : Ending → Next

-- Whether the bit of `listenfd` is set for `Select`; the bits of the pipes always are.
unfoldable pub listens : Server → Bool
listens s = ltb_ℤ (pos 0) s.navail

-- `for (i = 0; i < nchildren; i++) if (cptr[i].child_status == 0) break;`
pub find_avail : List Child → Option ℕ
find_avail [] = none
find_avail (c ∷ cs) =
    if c.status == 0 then some 0 else elim (find_avail cs) [ none ↦ none | some i ↦ some (suc i) ]

abbrev pub busy : Child → Child
busy c = record c { status = 1; count = c.count + 1 }

abbrev pub free : Child → Child
free c = record c { status = 0 }

-- The child at an index, marked as busy; with its pipe.
pub mark_busy : ℕ → List Child → Option (ℕ × List Child)
mark_busy i [] = none
mark_busy zero (c ∷ cs) = some (c.pipefd, busy c ∷ cs)
mark_busy (suc i) (c ∷ cs) = elim (mark_busy i cs) [
  | none ↦ none
  | some (fd, cs') ↦ some (fd, c ∷ cs')
]

abbrev pub is_zero : ℤ → Bool
is_zero (pos n) = n == 0
is_zero (negsuc n) = false

-- What the loop over the pipes comes to: the children and `navail`, or an end.
pub data Collected : Type 0 where
  collected : List Child → ℤ → Collected
  failed : Ending → Collected

abbrev pub keep : Child → Collected → Collected
keep c (collected cs navail) = collected (c ∷ cs) navail
keep c (failed e) = failed e

-- A pipe that is ready; `rest` goes on with the children behind it.
pub collect_one : ReadByte → Child → List Child → ℤ → ℤ → Collected → Collected
collect_one one_byte c cs nsel navail rest =
    if is_zero nsel then collected (free c ∷ cs) navail else keep (free c) rest
collect_one terminated c cs nsel navail rest = failed child_terminated
collect_one read_error c cs nsel navail rest = failed err_sys

-- `find any newly-available children`
pub collect : Round → List Child → ℤ → ℤ → Collected
collect r [] nsel navail = collected [] navail
collect r (c ∷ cs) nsel navail =
    let ready =
      collect_one (r.reads c.pipefd) c cs (nsel -ℤ pos 1) (navail +ℤ pos 1)
        (collect r cs (nsel -ℤ pos 1) (navail +ℤ pos 1)) in
    let idle = keep c (collect r cs nsel navail) in if r.rset c.pipefd then ready else idle

abbrev pub to_next : List (ℕ × ℕ) → Collected → Next
to_next passed (collected cs navail) = running (record { children = cs; navail = navail }) passed
to_next passed (failed e) = ended e

-- The child that the search stopped at, if it is no further than the last.
pub mark_found : Option ℕ → List Child → Option (ℕ × List Child)
mark_found none cs = none
mark_found (some i) cs = mark_busy i cs

-- `Write_fd`, and on to the other descriptors unless there are none.
pub hand_on : Round → Server → ℕ → Option (ℕ × List Child) → Next
hand_on r s connfd none = ended no_available_children
hand_on r s connfd (some (fd, cs)) =
    let nsel = r.nsel -ℤ pos 1 in
    let navail = s.navail -ℤ pos 1 in
    let passed : List (ℕ × ℕ) = (fd, connfd) ∷ [] in
    if is_zero nsel
    then running (record { children = cs; navail = navail }) passed
    else to_next passed (collect r cs nsel navail)

-- The new connection goes to the first child that is free.
pub dispatch : Round → Server → Option ℕ → Next
unfolding hand_on mark_found find_avail mark_busy collect collect_one
dispatch r s none = ended err_sys
dispatch r s (some connfd) = hand_on r s connfd (mark_found (find_avail s.children) s.children)

-- One round of the loop in `main`, behind `Select`.
unfoldable pub round : ℕ → Round → Server → Next
unfolding dispatch
round listenfd r s =
    if r.rset listenfd
    then dispatch r s r.accept
    else to_next [] (collect r s.children r.nsel s.navail)
