-- ===== src/Server/Socket.antt =====
-- `fh_server_create_socket` of src/core/server.c and `util_fd_set_nonblocking` of src/utils/utils.c.
-- What a system call answers is an argument.
use freehttpd.Base.{ℕ, Bool, false, List, [], ◌∷◌, Option, none, some, ◌&&◌, if◌then◌else◌, bit_or}

-- the options that are set on a socket
pub data SockOpt : Type 0 where
  reuseaddr reuseport rcvtimeo sndtimeo : SockOpt

-- The answers: `socket` is `none` below 0, `setsockopt` and `bind` say whether they succeed,
-- `getfl` is `none` below 0, and `setfl` says whether F_SETFL takes the flags; `o_nonblock` is
-- O_NONBLOCK.
pub record Calls : Type 0 where
  pub socket : Option ℕ
  pub setsockopt : SockOpt → Bool
  pub getfl : Option ℕ
  pub setfl : ℕ → Bool
  pub o_nonblock : ℕ
  pub bind : ℕ → Bool

-- the descriptors that the process has open, and the ports that they are bound to
pub record Kernel : Type 0 where
  pub opened : List ℕ
  pub bound : List (ℕ × ℕ)

-- `util_fd_set_nonblocking`
unfoldable pub set_nonblocking : Calls → Bool
set_nonblocking calls = elim calls.getfl [
  | none ↦ false
  | some flags ↦ calls.setfl (bit_or flags calls.o_nonblock)
]

-- the calls between `socket` and `bind`; each one is made only if those before it succeed
unfoldable pub configure : Calls → Bool
unfolding set_nonblocking
configure calls =
    calls.setsockopt reuseaddr
    && (calls.setsockopt reuseport
        && (calls.setsockopt rcvtimeo && (calls.setsockopt sndtimeo && set_nonblocking calls)))

-- `close` of the newest descriptor
unfoldable pub close_newest : Kernel → Kernel
close_newest k = elim k.opened [ [] ↦ k | fd ∷ rest ↦ record k { opened = rest } ]

-- `fh_server_create_socket`: `none` is -1
unfoldable pub create_socket : Calls → ℕ → Kernel → Option ℕ × Kernel
unfolding configure close_newest
create_socket calls port k = elim calls.socket [
  | none ↦ (none, k)
  | some fd ↦
      let opened = record k { opened = fd ∷ k.opened } in
      if configure calls && calls.bind port
      then (some fd, record opened { bound = (port, fd) ∷ k.bound })
      else (none, close_newest opened)
]
