-- ===== src/Uring/Wait.antt =====
-- The completions of src/event/xio_uring.c, and the reference counts of the provided buffers. A
-- completion's `flags` are split by the masks of the kernel's header.
use freehttpd.Base.{
  ℕ, zero, suc, ◌+◌, ◌-◌, ◌*◌, ◌%◌, ◌^◌, Bool, true, false, not, List, [], ◌∷◌, Option, none, some,
  ltb, leb, ◌==◌, if◌then◌else◌, update, read, ◌||◌, ◌>>=◌, ◌>>◌, assert, u32, min,
}
use freehttpd.Uring.Data.{
  OpData, Xio, BufCall, data_disown, xio_ring_entries, xio_ring_buf_count, xio_ring_buf_size,
}

-- the `res` of a completion: a size, or a negated error number
pub data Res : Type 0 where
  done : ℕ → Res
  error : ℕ → Res

-- IORING_CQE_F_BUFFER with the buffer's number, IORING_CQE_F_BUF_MORE and IORING_CQE_F_MORE
pub record Flags : Type 0 where
  pub f_buffer : Bool
  pub bid : ℕ
  pub buf_more : Bool
  pub more : Bool

pub record Cqe : Type 0 where
  pub user_data : ℕ
  pub res : Res
  pub flags : Flags

-- where a result's bytes are: the caller's buffer, or an offset in a provided one
pub data Buf : Type 0 where
  null : Buf
  caller : ℕ → Buf
  provided : (bid offset : ℕ) → Buf

-- `struct fh_xio_result`; `opdata` stands for its `op`
pub record Result : Type 0 where
  pub opdata : OpData
  pub flags : Flags
  pub res : Res
  pub buf : Buf
  pub udata : ℕ

-- `dfl_size`
unfoldable pub dfl_size : Res → ℕ
dfl_size (done n) = n
dfl_size (error e) = 0

-- the size that a completed read or write took from its buffer: the requested one
unfoldable pub requested : Res → ℕ → ℕ
requested (done n) size = size
requested (error e) size = 0

-- `request_size` of `fh_xio_data_populate`
unfoldable pub populate_size : OpData → Res → ℕ
unfolding requested dfl_size
populate_size (OpData.read fd buf size) res = requested res size
populate_size (OpData.write fd buf size) res = requested res size
populate_size (OpData.recv fd buf size flags) res = min size (dfl_size res)
populate_size (OpData.send fd buf size flags) res = min size (dfl_size res)
populate_size (OpData.accept fd addr addr_len flags) res = dfl_size res

-- `buf_ptr` of `fh_xio_data_populate`
unfoldable pub populate_buf : OpData → ℕ
populate_buf (OpData.read fd buf size) = buf
populate_buf (OpData.write fd buf size) = buf
populate_buf (OpData.recv fd buf size flags) = buf
populate_buf (OpData.send fd buf size flags) = buf
populate_buf (OpData.accept fd addr addr_len flags) = 0

-- XIO_RING_BUF_FLAG_DONE, the bit 31 of a reference count
abbrev pub flag_done : ℕ
flag_done = 2 ^ 31

-- `count | XIO_RING_BUF_FLAG_DONE`
unfoldable pub set_done : ℕ → ℕ
set_done count = if ltb count flag_done then count + flag_done else count

-- the next offset in a buffer
unfoldable pub next_offset : ℕ → ℕ → ℕ
next_offset offset size =
    if leb xio_ring_buf_size (offset + size) then xio_ring_buf_size else offset + size

-- the part of `fh_xio_wait` on a completion with a provided buffer
unfoldable pub use_buffer : Xio → Flags → ℕ → Option Xio
unfolding set_done next_offset
use_buffer xio flags size = do
  count ← read xio.buf_refcount xio_ring_buf_count flags.bid
  offset ← read xio.buf_offsets xio_ring_buf_count flags.bid
  let up = u32 (count + 1)
  some (record xio {
    buf_refcount = update xio.buf_refcount flags.bid (if flags.buf_more then up else set_done up);
    buf_offsets = update xio.buf_offsets flags.bid (next_offset offset size);
  })

-- the `buf` of a result
unfoldable pub result_buf : Xio → OpData → Flags → Buf
unfolding populate_buf
result_buf xio opdata flags =
    let buf = populate_buf opdata in
    if buf == 0
    then (if flags.f_buffer then provided flags.bid (xio.buf_offsets flags.bid) else null)
    else caller buf

-- one completion that belongs to a request
unfoldable pub complete : Xio → Cqe → Option (Result × Xio)
unfolding populate_size use_buffer result_buf
complete xio cqe = do
  let request = xio.records cqe.user_data
  let size = populate_size request.opdata cqe.res
  used ← (if cqe.flags.f_buffer then use_buffer xio cqe.flags size else some xio)
  some (
    record {
      opdata = request.opdata;
      flags = cqe.flags;
      res = cqe.res;
      buf = result_buf xio request.opdata cqe.flags;
      udata = request.udata;
    },
    (if cqe.flags.more then used else data_disown used cqe.user_data),
  )

-- the answer of the loop: the results, how far the queue advances, and the state
pub record Waited : Type 0 where
  pub results : List Result
  pub count_advance : ℕ
  pub xio : Xio

-- The loop of `fh_xio_wait` over the completions that are ready, with room for `room` results;
-- `self` is the address of the context, which marks the drain's own entry.
unfoldable pub wait_loop : ℕ → Xio → List Cqe → ℕ → Option Waited
unfolding complete
wait_loop self xio [] room = some (record { results = []; count_advance = 0; xio = xio })
wait_loop self xio (cqe ∷ cqes) zero = some (record { results = []; count_advance = 0; xio = xio })
wait_loop self xio (cqe ∷ cqes) (suc room) =
    if cqe.user_data == self || cqe.user_data == 0
    then (do
      w ← wait_loop self xio cqes (suc room)
      some (record w { count_advance = w.count_advance + 1 }))
    else (do
      c ← complete xio cqe
      w ← wait_loop self (c.1) cqes room
      some (record w { results = c.0 ∷ w.results; count_advance = w.count_advance + 1 }))

-- `fh_xio_wait`: `refused` is a call of io_uring that failed otherwise than by ETIME and left
-- nothing ready. The inner `none` is the return of -1.
unfoldable pub wait : ℕ → Bool → Xio → List Cqe → ℕ → Option (Option Waited)
unfolding wait_loop
wait self refused xio cqes max_results =
    if refused
    then some none
    else do w ← wait_loop self xio cqes (min max_results (xio_ring_entries * 4)); some (some w)

-- `fh_xio_result_free_internal`: whether the buffer goes back to the ring
unfoldable pub result_free_internal : Xio → Flags → ℕ → Option (Bool × Xio)
result_free_internal xio flags ring_buf_offset =
    if not flags.f_buffer then some (false, xio) else do
      count ← read xio.buf_refcount xio_ring_buf_count flags.bid
      assert (not (count % flag_done == 0))
      let down = count - 1
      if down == flag_done
          then some (
            true,
            record xio {
              buf_offsets = update xio.buf_offsets flags.bid 0;
              buf_refcount = update xio.buf_refcount flags.bid 0;
              buf_calls = BufCall.buf_ring_add flags.bid ring_buf_offset ∷ xio.buf_calls;
            },
          )
          else some (false, record xio { buf_refcount = update xio.buf_refcount flags.bid down })

abbrev pub advance : Xio → ℕ → Xio
advance xio n = record xio { buf_calls = BufCall.buf_ring_advance n ∷ xio.buf_calls }

-- `fh_xio_result_free`
unfoldable pub result_free : Xio → Flags → Option Xio
unfolding result_free_internal
result_free xio flags = do
  r ← result_free_internal xio flags 0
  some (if r.0 then advance (r.1) 1 else r.1)

-- the loop of `fh_xio_results_free`
unfoldable pub results_free_loop : Xio → List Flags → ℕ → Option (ℕ × Xio)
unfolding result_free_internal
results_free_loop xio [] advance_count = some (advance_count, xio)
results_free_loop xio (flags ∷ rest) advance_count = do
  r ← result_free_internal xio flags advance_count
  results_free_loop (r.1) rest (if r.0 then advance_count + 1 else advance_count)

-- `fh_xio_results_free`
unfoldable pub results_free : Xio → List Flags → Option Xio
unfolding results_free_loop
results_free xio results = do r ← results_free_loop xio results 0; some (advance (r.1) (r.0))
