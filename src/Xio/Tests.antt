-- ===== src/Xio/Tests.antt =====
-- Runs of the pools of src/event/xio_xpoll.c.
use freehttpd.Base.{
  true, false, [], ◌∷◌, ℕ, ◌+◌, ◌<◌, ◌≡◌, refl, none, some, arith, ◌==◌, if◌then◌else◌,
}
use freehttpd.Xio.Pool.{
  Pool, Slices, acquire, release, acquire_slice, release_slice, slices_alloc, full_pool,
}
use freehttpd.Xio.Prep.{Context, prep_in}
use freehttpd.Xio.Results.{Drained, head, drain}
use freehttpd.Xio.ResultLaws.{IsQueue, length, errors, push_all, drain_lem}
use freehttpd.Xio.PoolLaws.{IsPool, IsFree, acquire_lem, release_lem, release_after_acquire}

-- the task 5 is in use
abbrev two_free : Pool
two_free = record { free = λ i. if i == 0 then 3 else 9; top = 2 }

pub two_free-IsPool : IsPool two_free
two_free-IsPool = record {
  fits = omega arith;
  inside = λ i lt. ground arith;
  distinct = λ i j hi hj e. ground arith;
}

five-IsUsed : ¬ (IsFree two_free 5)
unfolding IsFree
five-IsUsed (i, (lt, e)) = ground arith

acquire_lem_example :
    (idx : ℕ) × (((acquire two_free).0 ≡ some idx)
      × (idx < 2048
          × (IsPool ((acquire two_free).1)
              × ((¬ (IsFree ((acquire two_free).1) idx)) × ((acquire two_free).1.top + 1 ≡ 2)))))
acquire_lem_example = acquire_lem two_free two_free-IsPool (omega arith)

release_lem_example :
    (p : Pool) × ((release two_free 5 ≡ some p)
      × (IsPool p × (((acquire p).0 ≡ some 5) × ((acquire p).1.top ≡ 2))))
release_lem_example = release_lem two_free 5 two_free-IsPool (omega arith) five-IsUsed (omega arith)

-- all slices are free
abbrev all_free : Slices
all_free = record { off = λ i. 0; refs = λ i. 0; pool = full_pool 2048 }

all_free_lem : slices_alloc ≡ all_free
unfolding slices_alloc
all_free_lem = refl

release_after_acquire_example :
    (bid : ℕ) × ((s : Slices) × ((acquire_slice all_free 512 ≡ some (some bid, s))
        × (release_slice s bid ≡ none)))
release_after_acquire_example = release_after_acquire all_free 512 refl (omega arith)

-- the descriptor 7 has the state 1 with the tasks 9 and 5, in this order
abbrev pub busy : Context
busy = record {
  fd_state_table = record {
    entries = λ i. record { key = 7; value = 2; prev_idx = 0; next_idx = 0; cached_hash = 0 };
    index_list = λ i. 0;
    deleted_index_list = λ i. 0;
    count = 0;
    entry_next_insert = 0;
    head_idx = 0;
    tail_idx = 0;
    index_capacity = 2;
    entry_capacity = 1;
    deleted_count = 0;
    deleted_capacity = 0;
  };
  slices = all_free;
  fd_state_list = λ i. record {
    fd = 7;
    reads = true;
    writes = false;
    task_in_head = some 9;
    task_out_head = none;
  };
  fd_state_pool = two_free;
  task_list =
      λ i. record { op = 3; bid = none; udata = 100 + i; next = if i == 9 then some 5 else none };
  task_pool = two_free;
}

busy-IsQueue : IsQueue busy (head (busy.fd_state_list 1) prep_in) (9 ∷ (5 ∷ []))
unfolding IsQueue head
busy-IsQueue = (refl, (refl, refl))

two_long : length (9 ∷ (5 ∷ [])) ≡ 2
unfolding length
two_long = refl

drain_lem_example :
    (d : Drained) × ((drain busy 1 prep_in 4 (head (busy.fd_state_list 1) prep_in) ≡ some d)
      × ((d.results ≡ errors busy (9 ∷ (5 ∷ [])))
          × ((d.full ≡ false)
              × ((head (d.xio.fd_state_list 1) prep_in ≡ none)
                  × ((d.xio.task_pool.top ≡ 2 + length (9 ∷ (5 ∷ [])))
                      × (d.xio.task_pool ≡ push_all two_free (9 ∷ (5 ∷ []))))))))
drain_lem_example =
    drain_lem busy 1 prep_in 4 (9 ∷ (5 ∷ [])) busy-IsQueue (omega (arith, two_long))
      (omega (arith, two_long))
