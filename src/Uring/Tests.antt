-- ===== src/Uring/Tests.antt =====
-- Runs of src/event/xio_uring.c.
use freehttpd.Base.{
  ℕ, ◌<◌, ◌≤◌, ◌≡◌, ◌≢◌, refl, true, false, not, List, [], ◌∷◌, some, ◌&&◌, arith, ◌==◌,
  if◌then◌else◌,
}
use freehttpd.Uring.Data.{free_list, Xio, BufCall, data_disown, data_get, recv, prep_recv}
use freehttpd.Uring.Request.{Env, Code, request}
use freehttpd.Uring.Wait.{
  Flags, Cqe, Waited, use_buffer, wait_loop, result_free_internal, next_offset, done,
}
use freehttpd.Uring.FreeWalk.{reverse, free_list_lem}
use freehttpd.Uring.FreeList.{IsFresh, IsLinked, IsStack, data_disown_lem, data_get_lem}
use freehttpd.Uring.Buffers.{IsTracked, length, word, is_last, use_buffer_lem, result_free_lem}
use freehttpd.Uring.Laws.{IsReal, request_eagain, wait_loop_total}

-- two free records, 32 on top of 16; the buffer 5 has one result, and data up to the byte 100
abbrev two_free : Xio
two_free = record {
  buf_offsets = λ i. if i == 5 then 100 else 0;
  buf_refcount = λ i. if i == 5 then 1 else 0;
  data_head = 16;
  data_tail = 32;
  data_count = 2;
  next = λ i. if i == 16 then 32 else 0;
  prev = λ i. if i == 32 then 16 else 0;
  records = λ i. record { udata = 7; opdata = recv 3 0 4096 0 };
  sqes = [];
  buf_calls = [];
}

two_free-IsStack : IsStack two_free (32 ∷ (16 ∷ []))
unfolding IsStack IsLinked IsFresh length
two_free-IsStack = (
  (
    refl,
    (
      (omega arith),
      (refl, (((omega arith), tt), (refl, ((omega arith), (refl, (tt, (refl, refl))))))),
    ),
  ),
  refl,
)

other-IsFresh : IsFresh 48 (32 ∷ (16 ∷ []))
unfolding IsFresh
other-IsFresh = ((omega arith), ((omega arith), tt))

data_disown_lem_example : IsStack (data_disown two_free 48) (48 ∷ (32 ∷ (16 ∷ [])))
data_disown_lem_example =
    data_disown_lem two_free 48 (32 ∷ (16 ∷ [])) two_free-IsStack (omega arith) other-IsFresh
      (omega arith)

data_get_lem_example : ((data_get two_free 0).0 ≡ 32) × IsStack ((data_get two_free 0).1) (16 ∷ [])
data_get_lem_example = data_get_lem two_free 0 32 (16 ∷ []) two_free-IsStack

-- the queue of entries is full
abbrev full : Env
full = record { malloc = 0; get_sqe = false; get_sqe_again = false; submit = λ entries. entries }

one_left : length {A = ℕ} (16 ∷ []) < 2048
unfolding length
one_left = omega arith

request_eagain_example :
    ((request full two_free 7 (recv 3 0 512 0) (prep_recv 3 0 512 0) (some 1)).0 ≡ Code.eagain)
    × IsStack
        ((request full two_free 7 (recv 3 0 512 0) (prep_recv 3 0 512 0) (some 1)).1)
        (32 ∷ (16 ∷ []))
request_eagain_example =
    request_eagain full two_free 32 (16 ∷ []) 7 (recv 3 0 512 0) (prep_recv 3 0 512 0) (some 1)
      two_free-IsStack one_left refl refl

-- the last completion of the buffer 5
abbrev last_of_5 : Flags
last_of_5 = record { f_buffer = true; bid = 5; buf_more = false; more = false }

five-IsTracked : IsTracked two_free 5 1 false 100
unfolding word
five-IsTracked = record {
  inside = omega arith;
  small = omega arith;
  count = refl;
  at = refl;
  below = omega arith;
}

use_buffer_lem_example :
    (xio : Xio) × ((use_buffer two_free last_of_5 4000 ≡ some xio)
      × (IsTracked xio 5 2 true (next_offset 100 4000)
          × ((other : ℕ)
              → 5 ≢ other
              → (xio.buf_refcount other ≡ two_free.buf_refcount other)
                × (xio.buf_offsets other ≡ two_free.buf_offsets other))))
use_buffer_lem_example =
    use_buffer_lem two_free last_of_5 4000 1 false 100 five-IsTracked (omega arith)

result_free_lem_example :
    (xio : Xio) × ((result_free_internal two_free last_of_5 0 ≡ some (is_last 0 false, xio))
      × (IsTracked xio 5 0 (false && not (is_last 0 false)) (if is_last 0 false then 0 else 100)
          × (xio.buf_calls ≡ (
              if is_last 0 false
              then BufCall.buf_ring_add 5 0 ∷ two_free.buf_calls
              else two_free.buf_calls))))
result_free_lem_example = result_free_lem two_free last_of_5 0 0 false 100 refl five-IsTracked

abbrev one_ready : List Cqe
one_ready = record { user_data = 32; res = done 512; flags = last_of_5 } ∷ []

one_ready-IsReal : IsReal one_ready
unfolding IsReal
one_ready-IsReal = ((omega arith), tt)

wait_loop_total_example :
    (w : Waited) × ((wait_loop 1 two_free one_ready 8 ≡ some w)
      × ((length w.results ≤ 8)
          × ((length w.results ≤ w.count_advance) × (w.count_advance ≤ length one_ready))))
wait_loop_total_example = wait_loop_total 1 two_free one_ready 8 one_ready-IsReal

free_list_lem_example : free_list two_free 3 16 ≡ reverse (32 ∷ (16 ∷ []))
free_list_lem_example = free_list_lem two_free (32 ∷ (16 ∷ [])) two_free-IsStack
