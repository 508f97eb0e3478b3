-- ===== src/Tests/Connect.antt =====
-- lib/connect_nonb.c at concrete answers.
use unpv13e.Base.{◌≡◌, refl, true, false, some, none, pos, negsuc}
use unpv13e.Nonblock.Connect.{
  Kernel, Descriptor, refused, in_progress, timed_out, ready, pending_error, returned, connect_nonb,
}
use unpv13e.Nonblock.Connect.Laws.{Ends, connect_nonb-Ends}

abbrev socket : Descriptor
socket = record { flags = 2; is_open = true }

-- Refused at once: the descriptor does not block any more.
abbrev refuses : Kernel
refuses = record { connect = refused 111; select = timed_out; so_error = pending_error 0 }

refused_at_once :
    connect_nonb refuses socket
    ≡ returned (negsuc 0) (some 111) (record { flags = 2050; is_open = true })
unfolding connect_nonb
refused_at_once = refl

abbrev waits : Kernel
waits = record { connect = in_progress; select = ready false true; so_error = pending_error 0 }

connected_later : connect_nonb waits socket ≡ returned (pos 0) none socket
unfolding connect_nonb
connected_later = refl

connect_nonb-Ends_example : Ends waits socket (connect_nonb waits socket)
connect_nonb-Ends_example = connect_nonb-Ends waits socket
