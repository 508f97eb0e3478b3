-- ===== src/Tests/Io.antt =====
-- lib/readn.c, lib/writen.c, lib/str_echo.c, lib/readline.c and threads/readline.c at concrete inputs.
use unpv13e.Base.{◌≡◌, refl, List, [], ◌∷◌, none, some, arith, pos, replicate}
use unpv13e.Tests.Script.{
  Piece, chunk, signal, read, read-IsStream, Sink, write, write-IsSink, bytes, accepted,
}
use unpv13e.Io.Readn.{readn}
use unpv13e.Io.Readn
use unpv13e.Io.Writen.{writen, writen_checked}
use unpv13e.Io.Writen
use unpv13e.Io.Echo.{returns, str_echo}
use unpv13e.Io.Echo
use unpv13e.Io.Readline.{cleared, readline, Rline}
use unpv13e.Io.Readline
use unpv13e.Io.Readline.Threads.{Specific, AllValid}

-- "ab", a signal, "c\nde", and the end.
abbrev pieces : List Piece
pieces = chunk 97 (98 ∷ []) ∷ signal ∷ chunk 99 (10 ∷ 100 ∷ 101 ∷ []) ∷ []

readn_five :
    readn read 9 5 pieces
    ≡ some (
      record { ret = pos 5; errno = none; mem = 97 ∷ 98 ∷ 99 ∷ 10 ∷ 100 ∷ [] },
      chunk 101 [] ∷ [],
    )
unfolding readn read
readn_five = refl

readn-Result_example : Readn.Laws.Result bytes 5 (bytes pieces) (readn read 9 5 pieces)
readn-Result_example = Readn.Laws.readn-Result read-IsStream 9 5 pieces (omega arith) (omega arith)

abbrev sink : Sink
sink = (1 ∷ [], some 1 ∷ none ∷ [])

writen-Result_example :
    Writen.Laws.Result write accepted
      (1 ∷ [])
      (5 ∷ 6 ∷ 7 ∷ [])
      (writen write 9 (5 ∷ 6 ∷ 7 ∷ []) sink)
writen-Result_example =
    Writen.Laws.writen-Result write-IsSink 9 (5 ∷ 6 ∷ 7 ∷ []) sink (omega arith) (omega arith)

writen_three :
    writen write 9 (5 ∷ 6 ∷ 7 ∷ []) sink
    ≡ some (record { ret = pos 3; errno = none }, (1 ∷ 5 ∷ 6 ∷ 7 ∷ [], []))
unfolding writen write
writen_three = refl

str_echo_seven :
    str_echo read write 9 9 pieces sink
    ≡ some (returns, [], (1 ∷ 97 ∷ 98 ∷ 99 ∷ 10 ∷ 100 ∷ 101 ∷ [], []))
unfolding str_echo read writen writen_checked write
str_echo_seven = refl

-- A short buffer, with the interrupt behind it.
abbrev small : Rline
small = record { cnt = pos 0; ptr = 0; buf = replicate 4096 0 }

cleared-IsValid : Readline.Fetch.IsValid small
cleared-IsValid = omega arith

readline-Result_example :
    Readline.Laws.Result read-IsStream 3 (bytes pieces) (readline read 9 3 small pieces)
readline-Result_example =
    Readline.Laws.readline-Result read-IsStream 9 3 small pieces cleared-IsValid (omega arith)
      (omega arith)

abbrev no_buffers : Specific
no_buffers t = none

no_buffers-AllValid : AllValid no_buffers
no_buffers-AllValid t = tt
