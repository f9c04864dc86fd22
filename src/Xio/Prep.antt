-- ===== src/Xio/Prep.antt =====
-- The preparation of a request in src/event/xio_xpoll.c. A pointer to a descriptor state is its
-- number plus one, NULL is 0, so that the table of states is the integer-keyed table.
use freehttpd.Base.{
  ℕ, ◌+◌, ◌-◌, Bool, true, false, not, Option, none, some, leb, ◌==◌, if◌then◌else◌, update, assert,
  ◌>>=◌, ◌>>◌, ◌||◌,
}
use freehttpd.Htable.Table.{Keys, Table, Alloc}
use freehttpd.Htable.Ops.{get, set, delete}
use freehttpd.Xio.Pool.{Pool, Slices, acquire, release, acquire_slice, release_slice, xio_buf_size}

-- `enum xio_request_prep_type`
pub data PrepType : Type 0 where
  prep_in prep_out : PrepType

-- `struct xio_task`: `bid` is there where XIO_TASK_F_BUFFER is set in `flags`
pub record Task : Type 0 where
  pub op : ℕ
  pub bid : Option ℕ
  pub udata : ℕ
  pub next : Option ℕ

-- `struct xio_fd_state`: whether `events` has XPOLL_READ and XPOLL_WRITE. They are two bits on epoll
-- and poll(2). On kqueue XPOLL_READ is -1 and not a bit, and setting it in `events` sets XPOLL_WRITE
-- too: that platform is not modelled here.
pub record FdState : Type 0 where
  pub fd : ℕ
  pub reads : Bool
  pub writes : Bool
  pub task_in_head : Option ℕ
  pub task_out_head : Option ℕ

-- `struct fh_xio`
pub record Context : Type 0 where
  pub fd_state_table : Table ℕ
  pub slices : Slices
  pub fd_state_list : ℕ → FdState
  pub fd_state_pool : Pool
  pub task_list : ℕ → Task
  pub task_pool : Pool

-- What a request meets: the allocator, and what `xpoll_add_fd` and `xpoll_modify_fd` return.
pub record Env : Type 0 where
  pub alloc : Alloc ℕ
  pub add_fd : Bool
  pub modify_fd : Bool

-- the task and the slice of a request
pub record Prepared : Type 0 where
  pub task : ℕ
  pub slice : Option ℕ

-- a slice goes back if there is one
unfoldable pub give_back : Context → ℕ → Option ℕ → Option Context
give_back xio task none = do
  tasks ← release xio.task_pool task
  some (record xio { task_pool = tasks })
give_back xio task (some bid) = do
  tasks ← release xio.task_pool task
  slices ← release_slice xio.slices bid
  some (record xio { task_pool = tasks; slices = slices })

-- whether the state already waits for the events of the request
unfoldable pub has_events : FdState → PrepType → Bool
has_events s prep_in = s.reads
has_events s prep_out = s.writes

-- the task becomes the first of its list, and the state waits for its events
unfoldable pub push_task : Context → ℕ → ℕ → PrepType → Context
push_task xio state task prep_in = record xio {
  task_list =
      update xio.task_list task
        (record (xio.task_list task) { next = (xio.fd_state_list state).task_in_head });
  fd_state_list =
      update xio.fd_state_list state
        (record (xio.fd_state_list state) { task_in_head = some task });
}
push_task xio state task prep_out = record xio {
  task_list =
      update xio.task_list task
        (record (xio.task_list task) { next = (xio.fd_state_list state).task_out_head });
  fd_state_list =
      update xio.fd_state_list state
        (record (xio.fd_state_list state) { task_out_head = some task });
}

unfoldable pub add_events : FdState → PrepType → FdState
add_events s prep_in = record s { reads = true }
add_events s prep_out = record s { writes = true }

-- the new state of a descriptor
abbrev pub new_state : ℕ → FdState
new_state fd = record {
  fd = fd;
  reads = false;
  writes = false;
  task_in_head = none;
  task_out_head = none;
}

-- The state of the descriptor, and whether it was created; the inner `none` is that there is no
-- free one. A failed `int_htable_set` is a failed `assert`.
unfoldable pub find_state : Keys ℕ → Env → Context → ℕ → Option (Option (ℕ × Bool) × Context)
find_state keys env xio fd = do
  p ← get keys xio.fd_state_table fd
  if not (p == 0) then some (some (p - 1, false), xio) else elim (acquire xio.fd_state_pool).0 [
    | none ↦ some (none, xio)
    | some state ↦ (do
      r ← set keys env.alloc xio.fd_state_table fd (state + 1)
      assert (r.1)
      some (
        some (state, true),
        record xio {
          fd_state_table = r.0;
          fd_state_pool = (acquire xio.fd_state_pool).1;
          fd_state_list = update xio.fd_state_list state (new_state fd);
        },
      ))
  ]

-- what undoes the creation of a state
unfoldable pub drop_state : Keys ℕ → Env → Context → ℕ → ℕ → Option Context
drop_state keys env xio fd state = do
  r ← delete keys env.alloc xio.fd_state_table fd
  states ← release xio.fd_state_pool state
  some (record xio { fd_state_table = r.0; fd_state_pool = states })

-- The registration with xpoll, then the task's list. The test is the source's: the call's
-- result goes to `rc`, and a value other than 0 undoes the request.
unfoldable pub register :
    Keys ℕ
    → Env
    → Context
    → ℕ
    → PrepType
    → ℕ
    → Option ℕ
    → ℕ × Bool
    → Option (Option Prepared × Context)
unfolding has_events push_task add_events drop_state give_back
register keys env xio fd type task slice (state, created) =
    let kept =
      push_task
        (record xio {
          fd_state_list =
              update xio.fd_state_list state (add_events (xio.fd_state_list state) type);
        })
        state task type in
    if has_events (xio.fd_state_list state) type
    then some (some (record { task = task; slice = slice }), push_task xio state task type)
    else (if (if created then env.add_fd else env.modify_fd)
        then (do
          dropped ← (if created then drop_state keys env xio fd state else some xio)
          undone ← give_back dropped task slice
          some (none, undone))
        else some (some (record { task = task; slice = slice }), kept))

-- the slice of a request without a buffer; the inner `none` is that there is none
unfoldable pub find_buffer : Context → ℕ → ℕ → Option (Option (Option ℕ) × Context)
find_buffer xio buf size = if not (buf == 0) then some (some none, xio) else do
  r ← acquire_slice xio.slices size
  some (elim r.0 [ none ↦ (none, xio) | some bid ↦ (some (some bid), record xio { slices = r.1 }) ])

-- `fh_xio_request_prep_with_size` once there are a task and a buffer
unfoldable pub prep_task :
    Keys ℕ
    → Env
    → Context
    → ℕ
    → PrepType
    → ℕ
    → ℕ
    → ℕ
    → Option ℕ
    → Option (Option Prepared × Context)
unfolding find_state register give_back
prep_task keys env xio op type fd udata task slice = do
  let filled = record xio {
    task_list =
        update xio.task_list task
          (record (xio.task_list task) { op = op; bid = slice; udata = udata });
  }
  found ← find_state keys env filled fd
  elim found.0 [
    | none ↦ give_back (found.1) task slice >>= λ undone. some (none, undone)
    | some state ↦ register keys env (found.1) fd type task slice state
  ]

-- `fh_xio_request_prep_with_size`
unfoldable pub request_prep :
    Keys ℕ → Env → Context → ℕ → PrepType → ℕ → ℕ → ℕ → ℕ → Option (Option Prepared × Context)
unfolding find_buffer prep_task give_back
request_prep keys env xio op type fd udata buf size = do
  assert (not (buf == 0) || leb size xio_buf_size)
  elim (acquire xio.task_pool).0 [
    | none ↦ some (none, xio)
    | some task ↦ (do
      let held = record xio { task_pool = (acquire xio.task_pool).1 }
      b ← find_buffer held buf size
      elim b.0 [
        | none ↦ give_back held task none >>= λ undone. some (none, undone)
        | some slice ↦ prep_task keys env (b.1) op type fd udata task slice
      ])
  ]
