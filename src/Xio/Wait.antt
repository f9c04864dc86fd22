-- ===== src/Xio/Wait.antt =====
-- The loop of `fh_xio_wait` of src/event/xio_xpoll.c over the events, and `fh_xio_request_recv`.
use freehttpd.Base.{
  ℕ, ◌+◌, ◌-◌, ◌*◌, Bool, false, List, [], ◌∷◌, ◌++◌, Option, none, some, ◌==◌, leb, if◌then◌else◌,
  assert, min, ◌>>=◌, ◌>>◌,
}
use freehttpd.Htable.Table.{Keys}
use freehttpd.Xio.Pool.{Slices, xio_buf_size}
use freehttpd.Xio.Prep.{Context, prep_in, prep_out, Env, request_prep}
use freehttpd.Xio.Results.{ErrorResult, head, Drained, drain}

-- XIO_XPOLL_MAX_EVENTS
abbrev pub xio_xpoll_max_events : ℕ
xio_xpoll_max_events = 2048

-- XIO_OP_RECV
abbrev pub xio_op_recv : ℕ
xio_op_recv = 3

-- an event: whether it has XPOLL_ERROR, and the number of its descriptor's state
pub record StateEvent : Type 0 where
  pub is_error : Bool
  pub state : ℕ

-- the number of results
unfoldable pub count_results : List ErrorResult → ℕ
count_results [] = 0
count_results (r ∷ rs) = count_results rs + 1

-- `goto loop_end` where the results are full, and else what follows with the room that is left
unfoldable pub go_on : Drained → ℕ → (Context → ℕ → Option Drained) → Option Drained
unfolding count_results
go_on d room next =
    let rest = next d.xio (room - count_results d.results) in
    if d.full then some d else do r ← rest; some (record r { results = d.results ++ r.results })

-- both lists of tasks of a state
unfoldable pub drain_state : Context → ℕ → ℕ → Option Drained
unfolding go_on
drain_state xio state room = do
  d ← drain xio state prep_in room (head (xio.fd_state_list state) prep_in)
  go_on d room
      λ xio' room'. drain xio' state prep_out room' (head (xio'.fd_state_list state) prep_out)

-- the loop over the events
unfoldable pub wait_events : List StateEvent → Context → ℕ → Option Drained
unfolding drain_state go_on
wait_events [] xio room = some (record { results = []; full = false; xio = xio })
wait_events (event ∷ events) xio room =
    let rest = wait_events events in
    if event.is_error
    then (do d ← drain_state xio event.state room; go_on d room rest)
    else rest xio room

-- what follows `xpoll_wait`; `none` is a number below 0, which is returned
unfoldable pub after_poll : Option (List StateEvent) → Context → ℕ → Option (Option Drained)
unfolding wait_events
after_poll none xio room = some none
after_poll (some events) xio room = wait_events events xio room >>= λ d. some (some d)

-- `fh_xio_wait`: `polled` is what `xpoll_wait` returns for as many events
unfoldable pub xio_wait : (ℕ → Option (List StateEvent)) → Context → ℕ → Option (Option Drained)
unfolding after_poll
xio_wait polled xio max_results =
    let room = min max_results xio_xpoll_max_events in after_poll (polled room) xio room

-- `opdata.recv` of a task
pub record Recv : Type 0 where
  pub fd : ℕ
  pub buf : ℕ
  pub size : ℕ
  pub flags : ℕ

-- `fh_xio_request_prep_slice_get_buffer`: the address in the memory of the slices
unfoldable pub slice_buffer : Slices → ℕ → ℕ → ℕ → Option ℕ
slice_buffer slices mem_base bid alloc_size = do
  assert (leb alloc_size 65535)
  assert (leb alloc_size (slices.off bid))
  some (mem_base + bid * xio_buf_size + (slices.off bid - alloc_size))

-- the part of `fh_xio_request_recv` after the preparation: the buffer of the caller, or of the slice
unfoldable pub recv_buffer : Context → ℕ → ℕ → ℕ → Option ℕ → Option ℕ
unfolding slice_buffer
recv_buffer xio mem_base buf size none = some buf
recv_buffer xio mem_base buf size (some bid) =
    if buf == 0 then slice_buffer xio.slices mem_base bid size else some buf

-- `fh_xio_request_recv`: the inner `none` is a negated error number; else the task and its `opdata`
unfoldable pub xio_request_recv :
    Keys ℕ → Env → ℕ → Context → ℕ → ℕ → ℕ → ℕ → ℕ → Option (Option (ℕ × Recv) × Context)
unfolding request_prep recv_buffer
xio_request_recv keys env mem_base xio udata fd buf size flags = do
  r ← request_prep keys env xio xio_op_recv prep_in fd udata buf size
  elim r.0 [
    | none ↦ some (none, r.1)
    | some prep ↦ recv_buffer r.1 mem_base buf size prep.slice >>= λ at.
        some (some (prep.task, record { fd = fd; buf = at; size = size; flags = flags }), r.1)
  ]
