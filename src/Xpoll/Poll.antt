-- ===== src/Xpoll/Poll.antt =====
-- `xpoll_ctl_fd` of src/event/xpoll.c where neither epoll nor kqueue is there: a list of
-- descriptors for poll(2), and a table from a descriptor to its place in the list.
use freehttpd.Base.{
  ℕ, ◌+◌, ◌-◌, ◌*◌, ◌/◌, ◌^◌, bit_and, Bool, true, false, Option, none, some, ◌||◌, ◌&&◌, ltb, leb,
  ◌==◌, if◌then◌else◌, update, read, write, u16, u32, ◌>>=◌,
}
use freehttpd.Htable.Table.{uint32_max}

-- `struct pollfd`
pub record PollFd : Type 0 where
  pub fd : ℕ
  pub events : ℕ
  pub revents : ℕ

-- `struct xpoll`; `fd_info_list` is the `udata` of each place.
pub record Xpoll : Type 0 where
  pub pfd_count : ℕ
  pub pfd_cap : ℕ
  pub fd_table_cap : ℕ
  pub pfd_last_wait_index : ℕ
  pub fd_table : ℕ → ℕ
  pub pfd_list : ℕ → PollFd
  pub fd_info_list : ℕ → ℕ

-- `xpoll_create`: `none` is NULL, when `calloc` fails
unfoldable pub create : Bool → Option Xpoll
create calloc_ok =
    if calloc_ok
    then some (record {
      pfd_count = 0;
      pfd_cap = 0;
      fd_table_cap = 0;
      pfd_last_wait_index = 0;
      fd_table = λ i. 0;
      pfd_list = λ i. record { fd = 0; events = 0; revents = 0 };
      fd_info_list = λ i. 0;
    })
    else none

-- whether each `realloc` of a call succeeds: the table's, the list's and that of `fd_info_list`
pub record Memory : Type 0 where
  pub table_ok : Bool
  pub list_ok : Bool
  pub info_ok : Bool

-- what `errno` is set to
pub data Errno : Type 0 where
  unset eexist enoent einval : Errno

pub record Outcome : Type 0 where
  pub state : Xpoll
  pub ok : Bool
  pub errno : Errno

abbrev pub done : Xpoll → Outcome
done xp = record { state = xp; ok = true; errno = Errno.unset }

abbrev pub failed : Xpoll → Errno → Outcome
failed xp e = record { state = xp; ok = false; errno = e }

-- XPOLL_EDGE
abbrev pub xpoll_edge : ℕ
xpoll_edge = 0x4000_0000

-- `events & ~XPOLL_EDGE`, stored in the `short` of `struct pollfd`
unfoldable pub poll_events : ℕ → ℕ
poll_events events = u16 (events - bit_and events xpoll_edge)

-- the new capacity of the table when `fd` lies outside
unfoldable pub new_table_cap : ℕ → ℕ → ℕ
new_table_cap cap fd =
    if ltb cap 16 then 16 else if ltb cap (2 ^ 16) then u32 (cap * 2) else u32 (fd + 1)

-- XPOLL_CTL_ADD, the part on the table: `none` is the early return
pub data Ready : Type 0 where
  stop : Outcome → Ready
  go : Xpoll → Ready

unfoldable pub add_table : Memory → Xpoll → ℕ → Option Ready
add_table m xp fd =
    if leb xp.fd_table_cap fd
    then some (
        if m.table_ok
        then go (record xp {
          fd_table = λ i. if ltb i xp.fd_table_cap then xp.fd_table i else uint32_max;
          fd_table_cap = new_table_cap xp.fd_table_cap fd;
        })
        else stop (failed xp Errno.unset))
    else (read xp.fd_table xp.fd_table_cap fd >>= λ c.
        some (if c == uint32_max then go xp else stop (failed xp Errno.eexist)))

-- XPOLL_CTL_ADD, the part on the list
unfoldable pub add_room : Memory → Xpoll → Ready
add_room m xp =
    if leb xp.pfd_cap xp.pfd_count
    then (if m.list_ok && m.info_ok
        then go (record xp { pfd_cap = if ltb xp.pfd_cap 16 then 16 else u32 (xp.pfd_cap * 2) })
        else stop (failed xp Errno.unset))
    else go xp

-- XPOLL_CTL_ADD, the writes
unfoldable pub add_entry : Xpoll → ℕ → ℕ → ℕ → Option Outcome
add_entry xp fd udata events = do
  let idx = xp.pfd_count
  pfds ←
      write xp.pfd_list xp.pfd_cap idx
        (record { fd = fd; events = poll_events events; revents = 0 })
  infos ← write xp.fd_info_list xp.pfd_cap idx udata
  table ← write xp.fd_table xp.fd_table_cap fd idx
  some (
      done (record xp {
        pfd_count = u32 (xp.pfd_count + 1);
        pfd_list = pfds;
        fd_info_list = infos;
        fd_table = table;
      }))

abbrev pub and_then : Ready → (Xpoll → Option Outcome) → Option Outcome
and_then (stop o) f = some o
and_then (go xp) f = f xp

-- XPOLL_CTL_ADD
unfoldable pub ctl_add : Memory → Xpoll → ℕ → ℕ → ℕ → Option Outcome
unfolding add_table add_room add_entry
ctl_add m xp fd udata events = do
  r ← add_table m xp fd
  and_then r λ xp₁. and_then (add_room m xp₁) λ xp₂. add_entry xp₂ fd udata events

-- the test of XPOLL_CTL_MOD and XPOLL_CTL_DEL; the table is read only inside it
unfoldable pub is_missing : Xpoll → ℕ → Bool
is_missing xp fd = xp.pfd_count == 0 || leb xp.fd_table_cap fd || xp.fd_table fd == uint32_max

-- XPOLL_CTL_MOD
unfoldable pub ctl_mod : Xpoll → ℕ → ℕ → ℕ → Option Outcome
unfolding is_missing
ctl_mod xp fd udata events = if is_missing xp fd then some (failed xp Errno.enoent) else do
  let idx = xp.fd_table fd
  pfds ← write xp.pfd_list xp.pfd_cap idx (record (xp.pfd_list idx) { events = poll_events events })
  infos ← write xp.fd_info_list xp.pfd_cap idx udata
  some (done (record xp { pfd_list = pfds; fd_info_list = infos }))

-- the last place is copied over the place `idx`
unfoldable pub move_last : Xpoll → ℕ → Option Xpoll
move_last xp idx =
    if ltb 1 xp.pfd_count
    then (do
      last ← read xp.pfd_list xp.pfd_cap (xp.pfd_count - 1)
      info ← read xp.fd_info_list xp.pfd_cap (xp.pfd_count - 1)
      pfds ← write xp.pfd_list xp.pfd_cap idx last
      infos ← write xp.fd_info_list xp.pfd_cap idx info
      some (record xp { pfd_list = pfds; fd_info_list = infos }))
    else some xp

-- the list is shrunk when it is mostly unused
unfoldable pub shrink : Memory → Xpoll → Xpoll
shrink m xp =
    if ltb 16 xp.pfd_cap && (ltb xp.pfd_count (xp.pfd_cap / 4) && (m.list_ok || m.info_ok))
    then record xp { pfd_cap = xp.pfd_cap / 4 }
    else xp

-- XPOLL_CTL_DEL
unfoldable pub ctl_del : Memory → Xpoll → ℕ → Option Outcome
unfolding is_missing move_last shrink
ctl_del m xp fd = if is_missing xp fd then some (failed xp Errno.enoent) else do
  let idx = xp.fd_table fd
  xp₁ ← move_last (record xp { fd_table = update xp.fd_table fd uint32_max }) idx
  some (done (shrink m (record xp₁ { pfd_count = xp₁.pfd_count - 1 })))

-- `xpoll_add_or_modify_fd`
unfoldable pub add_or_modify : Memory → Xpoll → ℕ → ℕ → ℕ → Option Outcome
unfolding ctl_mod ctl_add
add_or_modify m xp fd udata events = do
  o ← ctl_mod xp fd udata events
  if o.ok then some o else ctl_add m o.state fd udata events
