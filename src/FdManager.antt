-- ===== src/FdManager.antt =====
-- The state of the descriptors, in src/net/fd_manager.cpp and include/fishjoy/net/fd_manager.hpp.
-- An FdCtx is an object that callers share, and the manager's vector holds pointers to them: `heap`
-- gives the object at an address. `fstat` is an argument, which tells for a descriptor that is open
-- whether it is a socket. `fcntl` is taken to change only the kernel's flags. A descriptor is -1
-- (`none`) or not negative. An address `p` that `get` takes is that of the object it may make.
pub mod Laws
mod Tests
use fishjoy.Base.{
  ℕ, zero, suc, ◌+◌, ◌-◌, ◌/◌, ◌^◌, Bool, true, false, not, ◌||◌, Option, none, some, List, [], ◌∷◌,
  ◌++◌, length, get_elem?, set, take, replicate, ltb, leb, ◌==◌, if◌then◌else◌,
}

pub record FdCtx : Type 0 where
  pub is_init : Bool
  pub is_socket : Bool
  pub sys_nonblock : Bool
  pub user_nonblock : Bool
  pub is_closed : Bool
  pub fd : ℕ
  pub recv_timeout : ℕ
  pub send_timeout : ℕ

-- -1 as a uint64_t.
abbrev pub no_timeout : ℕ
no_timeout = 2 ^ 64 - 1

abbrev pub known : Option Bool → Bool
known none = false
known (some socket) = true

abbrev pub socket_of : Option Bool → Bool
socket_of none = false
socket_of (some socket) = socket

module _ (fstat : ℕ → Option Bool) where
  -- The Boolean that `init` returns is the member is_init.
  unfoldable pub init : FdCtx → FdCtx
  init c = if c.is_init then c else record c {
    recv_timeout = no_timeout;
    send_timeout = no_timeout;
    is_init = known (fstat c.fd);
    is_socket = socket_of (fstat c.fd);
    sys_nonblock = socket_of (fstat c.fd);
    user_nonblock = false;
    is_closed = false;
  }

  unfoldable pub new_ctx : ℕ → FdCtx
  unfolding init
  new_ctx fd = init (record {
    is_init = false;
    is_socket = false;
    sys_nonblock = false;
    user_nonblock = false;
    is_closed = false;
    fd = fd;
    recv_timeout = no_timeout;
    send_timeout = no_timeout;
  })

-- `type` is SO_RCVTIMEO or not.
unfoldable pub set_timeout : FdCtx → Bool → ℕ → FdCtx
set_timeout c receive v =
    if receive then record c { recv_timeout = v } else record c { send_timeout = v }

unfoldable pub get_timeout : FdCtx → Bool → ℕ
get_timeout c receive = if receive then c.recv_timeout else c.send_timeout

pub record FdManager : Type 0 where
  pub heap : ℕ → FdCtx
  pub datas : List (Option ℕ)

abbrev pub update : (ℕ → FdCtx) → ℕ → FdCtx → ℕ → FdCtx
update heap p c q = if p == q then c else heap q

-- std::vector::resize, with null pointers in the new places.
abbrev pub resize : List (Option ℕ) → ℕ → List (Option ℕ)
resize ps n = take n ps ++ replicate (n - length ps) none

unfoldable pub create : (ℕ → FdCtx) → FdManager
create heap = record { heap = heap; datas = resize [] 64 }

abbrev pub pointer : Option (Option ℕ) → Option ℕ
pointer none = none
pointer (some p) = p

abbrev pub is_null : Option ℕ → Bool
is_null none = true
is_null (some p) = false

-- The part under the write lock, which makes the object.
unfoldable pub install : (ℕ → Option Bool) → FdManager → ℕ → ℕ → FdManager
unfolding new_ctx
install fstat m fd p = record m {
  heap = update m.heap p (new_ctx fstat fd);
  datas =
      set (if leb (length m.datas) fd then resize m.datas (fd + fd / 2) else m.datas) fd (some p);
}

-- Out of the vector's range the pointer counts as null, as the code's first test has it.
unfoldable pub get_at :
    (ℕ → Option Bool) → FdManager → ℕ → Bool → ℕ → Option ℕ → FdManager × Option ℕ
unfolding install
get_at fstat m fd auto_create p found =
    if not (is_null found) || not auto_create then (m, found) else (install fstat m fd p, some p)

unfoldable pub get : (ℕ → Option Bool) → FdManager → Option ℕ → Bool → ℕ → FdManager × Option ℕ
unfolding get_at
get fstat m none auto_create p = (m, none)
get fstat m (some fd) auto_create p =
    get_at fstat m fd auto_create p (pointer (get_elem? m.datas fd))

unfoldable pub del : FdManager → ℕ → FdManager
del m fd = if leb (length m.datas) fd then m else record m { datas = set m.datas fd none }
