-- ===== src/Nonblock/Connect/Laws.antt =====
-- lib/connect_nonb.c: how it ends, and the descriptor behind it.
use unpv13e.Base.{
  ℕ, ◌≡◌, ◌≢◌, ◌⊎◌, inl, inr, refl, subst, Bool, true, false, ◌||◌, none, some, ◌==◌, pos, negsuc,
  arith, Bool-cases,
}
use unpv13e.Nonblock.Connect.{
  ConnectReply, connected, in_progress, refused, SelectReply, timed_out, select_error, ready,
  ErrorReply, pending_error, not_told, Kernel, Descriptor, etimedout, is_nonblocking, or_nonblock,
  Outcome, returned, err_quit, err_sys, finish, told, selected, begun, connect_nonb,
}

pub or_nonblock_on : (flags : ℕ) → is_nonblocking (or_nonblock flags) ≡ true
or_nonblock_on flags = elim (Bool-cases (is_nonblocking flags)) [
  | inl e ↦ rw e e
  | inr e ↦ rw e (ground (arith, e))
]

-- `connect` went on in the background, and `Select` named the descriptor in time.
abbrev pub IsReady : Kernel → Type 0
IsReady k =
    (k.connect ≡ in_progress) × (r : Bool) × (w : Bool) × (k.select ≡ ready r w) × ((r || w) ≡ true)

-- The kernel made the connection: at once, or in time and with no error pending.
abbrev pub IsMade : Kernel → Type 0
IsMade k = (k.connect ≡ connected) ⊎ (IsReady k × (k.so_error ≡ pending_error 0))

-- The connection took too long, or failed while it was waited for: the descriptor is closed.
abbrev pub IsClosed : Kernel → ℕ → Descriptor → Type 0
IsClosed k e d =
    (d.is_open ≡ false)
    × (((k.connect ≡ in_progress) × (k.select ≡ timed_out) × (e ≡ etimedout))
        ⊎ (IsReady k × (k.so_error ≡ pending_error e) × (e ≢ 0)))

-- `connect` or `getsockopt` failed: the descriptor is open and does not block.
abbrev pub IsLeft : Kernel → Descriptor → ℕ → Descriptor → Type 0
IsLeft k before e d =
    (d.is_open ≡ before.is_open)
    × (is_nonblocking d.flags ≡ true)
    × ((k.connect ≡ refused e) ⊎ (IsReady k × (k.so_error ≡ not_told e)))

abbrev pub Ends : Kernel → Descriptor → Outcome → Type 0
Ends k before (returned rc none d) =
    (rc ≡ pos 0) × (d.flags ≡ before.flags) × (d.is_open ≡ before.is_open) × IsMade k
Ends k before (returned rc (some e) d) = (rc ≡ negsuc 0) × (IsClosed k e d ⊎ IsLeft k before e d)
Ends k before err_quit = (k.connect ≡ in_progress) × (k.select ≡ ready false false)
Ends k before err_sys = (k.connect ≡ in_progress) × (k.select ≡ select_error)

finish-Ends :
    (k : Kernel) (before : Descriptor) (error : ℕ)
    → IsReady k
    → k.so_error ≡ pending_error error
    → Ends k before (finish before.flags error (record before { flags = or_nonblock before.flags }))
unfolding finish
finish-Ends k before error c p = elim (Bool-cases (error == 0)) [
  | inl z ↦
      let none_pending : error ≡ 0 = ground (arith, z) in
      rw z (refl, refl, refl, inr (c, subst (λ n. k.so_error ≡ pending_error n) none_pending p))
  | inr z ↦ rw z (refl, inl (refl, inr (c, p, ground (arith, z))))
]

told-Ends :
    (k : Kernel) (before : Descriptor) (r : ErrorReply)
    → IsReady k
    → k.so_error ≡ r
    → Ends k before (told before.flags (record before { flags = or_nonblock before.flags }) r)
unfolding told
told-Ends k before (pending_error error) c p = finish-Ends k before error c p
told-Ends k before (not_told e) c p = (refl, inr (refl, or_nonblock_on before.flags, inr (c, p)))

selected-Ends :
    (k : Kernel) (before : Descriptor) (r : SelectReply)
    → k.connect ≡ in_progress
    → k.select ≡ r
    → Ends k before
        (selected before.flags (record before { flags = or_nonblock before.flags }) k.so_error r)
unfolding selected
selected-Ends k before timed_out c p = (refl, inl (refl, inl (c, p, refl)))
selected-Ends k before select_error c p = (c, p)
selected-Ends k before (ready true w) c p = told-Ends k before k.so_error (c, true, w, p, refl) refl
selected-Ends k before (ready false true) c p =
    told-Ends k before k.so_error (c, false, true, p, refl) refl
selected-Ends k before (ready false false) c p = (c, p)

begun-Ends :
    (k : Kernel) (before : Descriptor) (r : ConnectReply)
    → k.connect ≡ r
    → Ends k before (begun before.flags (record before { flags = or_nonblock before.flags }) k r)
unfolding begun
begun-Ends k before connected p = (refl, refl, refl, inl p)
begun-Ends k before in_progress p = selected-Ends k before k.select p refl
begun-Ends k before (refused e) p = (refl, inr (refl, or_nonblock_on before.flags, inl p))

-- `connect_nonb` returns 0 only where `connect` succeeded at once, or `Select` named the descriptor in
-- time and no error was pending; the descriptor is then open as before and its flags are put back.
-- It returns -1 either with the descriptor closed, where `Select` gave 0 (ETIMEDOUT) or named the
-- descriptor and an error was pending (that error), or, where `connect` failed at once, or
-- `getsockopt` behind a `Select` that named it, with the descriptor left as open as it was and
-- with O_NONBLOCK on. The process ends only where `Select` fails or names no descriptor.
pub connect_nonb-Ends : (k : Kernel) (d : Descriptor) → Ends k d (connect_nonb k d)
unfolding connect_nonb
connect_nonb-Ends k d = begun-Ends k d k.connect refl
