-- ===== src/Nonblock/Connect.antt =====
-- lib/connect_nonb.c: a connect with a limit on its time.
pub mod Laws
use unpv13e.Base.{
  ℕ, ◌+◌, ◌/◌, ◌%◌, Bool, true, false, Option, none, some, ◌==◌, ◌||◌, if◌then◌else◌, ℤ, pos,
  negsuc,
}

-- What the calls answer: `connect` at once, `Select` with the two sets or at the end of the time (or it
-- ends the process), and `getsockopt` with the pending error or -1 with an `errno`.
pub data ConnectReply : Type 0 where
  connected in_progress : ConnectReply
  refused : ℕ → ConnectReply

pub data SelectReply : Type 0 where
  timed_out select_error : SelectReply
  ready : Bool → Bool → SelectReply

pub data ErrorReply : Type 0 where
  pending_error : ℕ → ErrorReply
  not_told : ℕ → ErrorReply

pub record Kernel : Type 0 where
  pub connect : ConnectReply
  pub select : SelectReply
  pub so_error : ErrorReply

-- The descriptor: its file status flags, and whether it is still open.
pub record Descriptor : Type 0 where
  pub flags : ℕ
  pub is_open : Bool

-- ETIMEDOUT, and the value of the bit O_NONBLOCK.
abbrev pub etimedout : ℕ
etimedout = 110

abbrev pub o_nonblock : ℕ
o_nonblock = 2048

abbrev pub is_nonblocking : ℕ → Bool
is_nonblocking flags = flags / o_nonblock % 2 == 1

-- `flags | O_NONBLOCK`
abbrev pub or_nonblock : ℕ → ℕ
or_nonblock flags = if is_nonblocking flags then flags else flags + o_nonblock

pub data Outcome : Type 0 where
  returned : ℤ → Option ℕ → Descriptor → Outcome
  err_quit err_sys : Outcome

abbrev pub close : Descriptor → Descriptor
close d = record d { is_open = false }

-- From `done` on: the flags are put back, and a pending error closes the descriptor.
pub finish : ℕ → ℕ → Descriptor → Outcome
finish flags error d =
    let d' : Descriptor = record d { flags = flags } in
    if error == 0 then returned (pos 0) none d' else returned (negsuc 0) (some error) (close d')

pub told : ℕ → Descriptor → ErrorReply → Outcome
unfolding finish
told flags d (pending_error error) = finish flags error d
told flags d (not_told e) = returned (negsuc 0) (some e) d

pub selected : ℕ → Descriptor → ErrorReply → SelectReply → Outcome
unfolding told
selected flags d so_error timed_out = returned (negsuc 0) (some etimedout) (close d)
selected flags d so_error select_error = err_sys
selected flags d so_error (ready r w) = if r || w then told flags d so_error else err_quit

pub begun : ℕ → Descriptor → Kernel → ConnectReply → Outcome
unfolding selected
begun flags d k connected = finish flags 0 d
begun flags d k in_progress = selected flags d k.so_error k.select
begun flags d k (refused e) = returned (negsuc 0) (some e) d

unfoldable pub connect_nonb : Kernel → Descriptor → Outcome
unfolding begun
connect_nonb k d = begun d.flags (record d { flags = or_nonblock d.flags }) k k.connect
