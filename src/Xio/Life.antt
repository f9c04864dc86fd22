-- ===== src/Xio/Life.antt =====
-- The creation and the end of the context of src/event/xio_xpoll.c. What the allocator and the kernel
-- answer is an argument.
use freehttpd.Base.{
  ℕ, Bool, not, List, [], ◌∷◌, Option, none, some, if◌then◌else◌, ◌||◌, ◌>>=◌, arith,
}
use freehttpd.Htable.Table.{Table, Alloc}
use freehttpd.Htable.Ops.{create}
use freehttpd.Xio.Pool.{full_pool, slices_alloc, xio_xpoll_max_task_count}
use freehttpd.Xio.Prep.{Context, FdState, Task}
use freehttpd.Xio.PoolLaws.{IsPool}

-- what a context owns: its struct, the queue of events, the table of states, and the slices
pub data Part : Type 0 where
  struct_memory event_queue state_table slice_memory : Part

-- What `fh_xio_create` meets: `calloc`, `xpoll_create`, `int_htable_create`, and the two calls of
-- `mmap` in `fh_xio_slices_alloc`, the first only on Linux.
pub record Answers : Type 0 where
  pub calloc_ok : Bool
  pub xpoll_ok : Bool
  pub struct_ok : Bool
  pub alloc : Alloc ℕ
  pub mmap_huge : Bool
  pub mmap_plain : Bool

-- the context after `fh_xio_slices_alloc`, over memory at hand
unfoldable pub new_context : Table ℕ → (ℕ → FdState) → (ℕ → Task) → Context
unfolding slices_alloc
new_context table states tasks = record {
  fd_state_table = table;
  slices = slices_alloc;
  fd_state_list = states;
  fd_state_pool = full_pool xio_xpoll_max_task_count;
  task_list = tasks;
  task_pool = full_pool xio_xpoll_max_task_count;
}

-- `fh_xio_create`: the context, or NULL with the parts that were made and then freed
unfoldable pub xio_create :
    Answers → (ℕ → FdState) → (ℕ → Task) → Option (Option Context × List Part)
unfolding new_context
xio_create env states tasks =
    if not env.calloc_ok
    then some (none, [])
    else if not env.xpoll_ok
    then some (none, struct_memory ∷ [])
    else create env.struct_ok env.alloc 16 >>= λ made. elim made [
      | none ↦ some (none, event_queue ∷ struct_memory ∷ [])
      | some table ↦ some (
          if env.mmap_huge || env.mmap_plain
          then (some (new_context table states tasks), [])
          else (none, state_table ∷ event_queue ∷ struct_memory ∷ []))
    ]

-- `fh_xio_free`, in its order
unfoldable pub xio_free : Context → List Part
xio_free xio = state_table ∷ slice_memory ∷ event_queue ∷ struct_memory ∷ []

-- The pools of a new context are valid, and all their places are free.
pub new_context-IsPool :
    (table : Table ℕ) (states : ℕ → FdState) (tasks : ℕ → Task)
    → IsPool (new_context table states tasks).task_pool
      × IsPool (new_context table states tasks).fd_state_pool
unfolding new_context
new_context-IsPool table states tasks =
    let all : IsPool (full_pool xio_xpoll_max_task_count) = record {
      fits = omega arith;
      inside = λ i h. h;
      distinct = λ i j hi hj e. e;
    } in
    (all, all)
