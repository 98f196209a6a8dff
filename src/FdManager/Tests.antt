-- ===== src/FdManager/Tests.antt =====
-- Runs of the manager, and each theorem at a concrete vector.
use fishjoy.Base.{ℕ, Bool, true, false, Option, none, some, [], ◌∷◌, ◌==◌, arith}
use fishjoy.FdManager.{FdCtx, FdManager, no_timeout, get}
use fishjoy.FdManager.Laws.{Got, get-Got}

-- Descriptor 1 is a socket, and the others are files.
abbrev sockets : ℕ → Option Bool
sockets fd = some (fd == 1)

abbrev blank : FdCtx
blank = record {
  is_init = false;
  is_socket = false;
  sys_nonblock = false;
  user_nonblock = false;
  is_closed = false;
  fd = 0;
  recv_timeout = no_timeout;
  send_timeout = no_timeout;
}

abbrev few : FdManager
few = record { heap = λ p. blank; datas = none ∷ none ∷ some 7 ∷ [] }

get-Got_example : Got sockets few 1 true 9 (get sockets few (some 1) true 9)
get-Got_example = get-Got sockets few 1 9 (omega arith) true
