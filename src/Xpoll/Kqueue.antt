-- ===== src/Xpoll/Kqueue.antt =====
-- The implementation over kqueue(2) of src/event/xpoll.c, for systems like BSD. The queue of the
-- kernel is a parameter, and so are the numbers that its header gives the two filters.
use freehttpd.Base.{
  ℕ, bit_and, bit_or, ◌≡◌, Bool, true, false, not, List, [], ◌∷◌, Option, none, some, ◌==◌, ◌&&◌,
  if◌then◌else◌,
}

-- EV_ADD and EV_DELETE
pub data Op : Type 0 where
  ev_add ev_delete : Op

-- `struct kevent` as a change: `clear` is EV_CLEAR
pub record Change : Type 0 where
  pub fd : ℕ
  pub filter : ℕ
  pub op : Op
  pub clear : Bool
  pub udata : ℕ

-- The queue of the kernel: `kevent` on one change, `none` where it returns a number below 0. To
-- delete a filter right after it was added where there was none gives back the queue.
pub record Kqueue : Type 1 where
  pub State : Type 0
  pub Has : State → ℕ → ℕ → Type 0
  pub kevent : Change → State → Option State
  pub evfilt_read : ℕ
  pub evfilt_write : ℕ
  pub undo :
      (c : Change) (s s' : State)
      → c.op ≡ ev_add
      → ¬ (Has s c.fd c.filter)
      → kevent c s ≡ some s'
      → kevent (record c { op = ev_delete; clear = false }) s' ≡ some s

-- XPOLL_EDGE
abbrev pub kqueue_edge : ℕ
kqueue_edge = 32

unfoldable pub is_add : Op → Bool
is_add ev_add = true
is_add ev_delete = false

module _ (kq : Kqueue) where
  open kq use {State, kevent, evfilt_read, evfilt_write}

  -- `events & filter`, as a test
  unfoldable pub wants : ℕ → ℕ → Bool
  wants events filter = not (bit_and events filter == 0)

  unfoldable pub change : ℕ → ℕ → Op → ℕ → ℕ → Change
  change fd udata op events filter = record {
    fd = fd;
    filter = filter;
    op = op;
    clear = bit_and events kqueue_edge == kqueue_edge;
    udata = udata;
  }

  -- What is known after a filter: `return false` at once, or whether `ret` is set and the queue.
  pub data Part : Type 0 where
    stopped : State → Part
    went : Bool → State → Part

  -- the filter for reading
  unfoldable pub read_part : ℕ → ℕ → Op → ℕ → Bool → State → Part
  unfolding wants change
  read_part fd udata op events ret_on_partial_failure s =
      if wants events evfilt_read
      then elim (kevent (change fd udata op events evfilt_read) s) [
        | none ↦ if ret_on_partial_failure then stopped s else went false s
        | some s' ↦ went true s'
      ]
      else went false s

  -- the undoing of the filter for reading; its result is not looked at
  unfoldable pub roll_back : ℕ → ℕ → Op → ℕ → State → State
  unfolding is_add wants change
  roll_back fd udata op events s =
      if is_add op && wants events evfilt_read
      then elim (kevent
          (record (change fd udata op events evfilt_read) { op = ev_delete; clear = false }) s) [
            | none ↦ s
            | some s' ↦ s'
          ]
      else s

  -- the filter for writing
  unfoldable pub write_part : ℕ → ℕ → Op → ℕ → Bool → Bool → State → Part
  unfolding wants change roll_back
  write_part fd udata op events ret_on_partial_failure ret s =
      if wants events evfilt_write
      then elim (kevent (change fd udata op events evfilt_write) s) [
        | none ↦
            if ret_on_partial_failure then stopped (roll_back fd udata op events s) else went ret s
        | some s' ↦ went true s'
      ]
      else went ret s

  abbrev pub and_then : Part → (Bool → State → Part) → Part
  and_then (stopped s) f = stopped s
  and_then (went ret s) f = f ret s

  abbrev pub result : Part → Bool × State
  result (stopped s) = (false, s)
  result (went ret s) = (ret, s)

  -- `xpoll_ctl_fd`; with no filter the return value is false too, with EINVAL
  unfoldable pub kqueue_ctl : ℕ → ℕ → Op → ℕ → Bool → State → Bool × State
  unfolding read_part write_part
  kqueue_ctl fd udata op events partial s =
      result
        (and_then (read_part fd udata op events partial s) (write_part fd udata op events partial))

  -- `xpoll_add_fd` and `xpoll_add_or_modify_fd`
  unfoldable pub kqueue_add : ℕ → ℕ → ℕ → State → Bool × State
  unfolding kqueue_ctl
  kqueue_add fd udata events s = kqueue_ctl fd udata ev_add events true s

  -- the filters that `xpoll_modify_fd` takes away
  unfoldable pub unwanted : ℕ → ℕ
  unfolding wants
  unwanted events =
      bit_or (if wants events evfilt_read then 0 else evfilt_read)
        (if wants events evfilt_write then 0 else evfilt_write)

  -- `xpoll_modify_fd`
  unfoldable pub kqueue_modify : ℕ → ℕ → ℕ → State → Bool × State
  unfolding kqueue_ctl unwanted
  kqueue_modify fd udata events s =
      let mask = unwanted events in
      let cleared = if mask == 0 then s else (kqueue_ctl fd 0 ev_delete mask false s).1 in
      kqueue_ctl fd udata ev_add events true cleared

  -- `xpoll_remove_fd`
  unfoldable pub kqueue_remove : ℕ → State → Bool × State
  unfolding kqueue_ctl
  kqueue_remove fd s = kqueue_ctl fd 0 ev_delete (bit_or evfilt_read evfilt_write) false s

-- an event of the kernel: EV_ERROR and EV_EOF
pub record KernelEvent : Type 0 where
  pub filter : ℕ
  pub udata : ℕ
  pub ev_error : Bool
  pub ev_eof : Bool

-- `struct xpoll_event`, whose `fd` the loop of `xpoll_wait` does not set
pub record KqueueEvent : Type 0 where
  pub events : ℕ
  pub udata : ℕ

-- XPOLL_ERROR and XPOLL_HANGUP are added
unfoldable pub to_event : KernelEvent → KqueueEvent
to_event e = record {
  events =
      let marked = if e.ev_error then bit_or e.filter 4 else e.filter in
      if e.ev_eof then bit_or marked 8 else marked;
  udata = e.udata;
}

-- the loop of `xpoll_wait` over the events that kevent returned
unfoldable pub to_events : List KernelEvent → List KqueueEvent
unfolding to_event
to_events [] = []
to_events (e ∷ es) = to_event e ∷ to_events es
