-- ===== src/Uring/LifeTests.antt =====
-- Runs of the life of a context, and of the return of several buffers.
use freehttpd.Base.{
  ℕ, ◌+◌, ◌≡◌, ◌<◌, refl, Bool, true, false, List, [], ◌∷◌, ◌++◌, none, some, arith,
}
use freehttpd.Uring.Data.{Data, Xio, recv, BufCall, xio_ring_buf_count}
use freehttpd.Uring.Wait.{Flags, Cqe, done, flag_done, advance, results_free}
use freehttpd.Uring.Buffers.{word, length}
use freehttpd.Uring.FreeAll.{Counts, AreTracked, AreHeld, freed, AreFreed, results_free_lem}
use freehttpd.Uring.FreeList.{IsStack}
use freehttpd.Uring.Drain.{
  Answer, interrupted, ready, drain_all, AreWaiting, any, is_own, filter, is_finished, addresses,
  finished, completions, drain_all_lem,
}
use freehttpd.Uring.Life.{Setup, Parts, context, create_uring, free_acts, new_xio}
use freehttpd.Uring.LifeLaws.{nothing, perform, held_by, IsMade, create_uring_lem, new_xio_lem}

abbrev blank_record : Data
blank_record = record { udata = 7; opdata = recv 3 0 4096 0 }

-- each buffer has one result, and the kernel is done with it
abbrev in_use : Xio
in_use = record {
  buf_offsets = λ _. 4096;
  buf_refcount = λ _. 1 + flag_done;
  data_head = 0;
  data_tail = 0;
  data_count = 0;
  next = λ _. 0;
  prev = λ _. 0;
  records = λ _. blank_record;
  sqes = [];
  buf_calls = [];
}

abbrev one_each : Counts
one_each = record { results = λ _. 1; is_done = λ _. true; offset = λ _. 4096 }

in_use-AreTracked : AreTracked in_use one_each
unfolding AreTracked word
in_use-AreTracked = λ bid lt. record {
  inside = lt;
  small = omega arith;
  count = refl;
  at = refl;
  below = omega arith;
}

abbrev with_buffer : ℕ → Flags
with_buffer bid = record { f_buffer = true; bid = bid; buf_more = false; more = false }

abbrev three : List Flags
three =
    with_buffer 3
    ∷ record { f_buffer = false; bid = 0; buf_more = false; more = false }
    ∷ with_buffer 5
    ∷ []

three-AreHeld : AreHeld one_each three
unfolding AreHeld freed
three-AreHeld = (
  λ _. ((omega arith), (omega arith)),
  (λ e. absurd (cc e), (λ _. ((omega arith), (omega arith)), tt)),
)

results_free_lem_example :
    (n : ℕ) × (xio' : Xio) × (results_free in_use three ≡ some (advance xio' n))
    × AreFreed in_use one_each three 0 n xio'
results_free_lem_example = results_free_lem three in_use one_each in_use-AreTracked three-AreHeld

abbrev completion : ℕ → Bool → Cqe
completion p more = record {
  user_data = p;
  res = done 0;
  flags = record { f_buffer = false; bid = 0; buf_more = false; more = more };
}

abbrev waits : List Answer
waits =
    interrupted ∷ ready (completion 32 false ∷ completion 0 false ∷ completion 48 true ∷ []) ∷ []

drain_all_lem_example :
    drain_all true true 1 (waits ++ (ready (completion 1 false ∷ completion 16 false ∷ []) ∷ []))
    ≡ some (true, finished 1 (completions waits ++ (completion 1 false ∷ completion 16 false ∷ [])))
unfolding AreWaiting any is_own
drain_all_lem_example =
    drain_all_lem 1 waits (completion 1 false ∷ completion 16 false ∷ []) [] (refl, tt) refl

drain_runs :
    drain_all true true 1 (waits ++ (ready (completion 1 false ∷ completion 16 false ∷ []) ∷ []))
    ≡ some (true, 32 ∷ 16 ∷ [])
unfolding completions filter is_finished is_own addresses
drain_runs = drain_all_lem_example

-- the buffers cannot be allocated
abbrev no_buffers : Setup
no_buffers = record {
  calloc_ok = true;
  has_size = true;
  mmap_huge = false;
  mmap_plain = true;
  init_mem_ok = true;
  init_params = none;
  buf_ring_error = none;
  memalign_error = some 12;
}

create_uring_lem_example :
    (perform (create_uring no_buffers).1 nothing ≡ some (held_by (create_uring no_buffers).0))
    × ((parts : Parts)
        → (create_uring no_buffers).0 ≡ context parts
        → perform (free_acts parts) (held_by (create_uring no_buffers).0) ≡ some nothing)
create_uring_lem_example = create_uring_lem no_buffers

new_xio_lem_example :
    IsStack (new_xio (λ _. 7) (λ _. 7) (λ _. blank_record)) []
    × AreTracked
        (new_xio (λ _. 7) (λ _. 7) (λ _. blank_record))
        (record { results = λ _. 0; is_done = λ _. false; offset = λ _. 0 })
    × ((calls : List BufCall) × ((new_xio (λ _. 7) (λ _. 7) (λ _. blank_record)).buf_calls
          ≡ BufCall.buf_ring_advance xio_ring_buf_count ∷ calls)
        × ((bid : ℕ) → bid < xio_ring_buf_count → IsMade (BufCall.buf_ring_add bid bid) calls)
        × (length calls ≡ xio_ring_buf_count))
new_xio_lem_example = new_xio_lem (λ _. 7) (λ _. 7) (λ _. blank_record)
