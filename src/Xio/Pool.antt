-- ===== src/Xio/Pool.antt =====
-- The pools of src/event/xio_xpoll.c: a list of free numbers and its top, used for tasks and for
-- descriptor states, and the slices of the buffers.
use freehttpd.Base.{
  ℕ, zero, suc, ◌+◌, ◌-◌, Option, none, some, ltb, leb, ◌==◌, if◌then◌else◌, update, assert, ◌>>◌,
  u32, u16,
}

abbrev pub xio_xpoll_max_task_count : ℕ
xio_xpoll_max_task_count = 2048

abbrev pub xio_buf_size : ℕ
xio_buf_size = 4096

abbrev pub xio_buf_count : ℕ
xio_buf_count = 2048

-- `free_*_list` and `free_*_list_top`
pub record Pool : Type 0 where
  pub free : ℕ → ℕ
  pub top : ℕ

-- `fh_xio_acquire_task` and `fh_xio_acquire_fd_state`: the number of the task or state, or NULL
unfoldable pub acquire : Pool → Option ℕ × Pool
acquire p =
    if p.top == 0 then (none, p) else (some (p.free (p.top - 1)), record p { top = p.top - 1 })

-- `fh_xio_release_task` and `fh_xio_release_fd_state`
unfoldable pub release : Pool → ℕ → Option Pool
release p idx = do
  assert (ltb p.top xio_xpoll_max_task_count)
  some (record { free = update p.free p.top idx; top = p.top + 1 })

-- the slices: `off` and `refs` of each, whose `bid` is its number, and the free list
pub record Slices : Type 0 where
  pub off : ℕ → ℕ
  pub refs : ℕ → ℕ
  pub pool : Pool

-- a slice is taken, from the place `at` of the free list
unfoldable pub take_slice : Slices → ℕ → ℕ → Slices
take_slice s at size =
    let idx = s.pool.free at in
    let off = u32 (s.off idx + size) in
    record {
      off = update s.off idx off;
      refs = update s.refs idx (u16 (s.refs idx + 1));
      pool =
          if off == xio_buf_size
          then record {
            free = update s.pool.free at (s.pool.free (s.pool.top - 1));
            top = s.pool.top - 1;
          }
          else s.pool;
    }

-- the loop of `fh_xio_acquire_slice`, with `n` places of the free list to look at
unfoldable pub find_slice : Slices → ℕ → ℕ → Option ℕ × Slices
unfolding take_slice
find_slice s zero size = (none, s)
find_slice s (suc n) size =
    let rest = find_slice s n size in
    if ltb xio_buf_size (s.off (s.pool.free n) + size)
    then rest
    else (some (s.pool.free n), take_slice s n size)

-- `fh_xio_acquire_slice`
unfoldable pub acquire_slice : Slices → ℕ → Option (Option ℕ × Slices)
unfolding find_slice
acquire_slice s size = do assert (leb size xio_buf_size); some (find_slice s s.pool.top size)

-- `fh_xio_release_slice`
unfoldable pub release_slice : Slices → ℕ → Option Slices
release_slice s bid = do
  assert (ltb s.pool.top xio_buf_count)
  assert (ltb 0 (s.refs bid))
  let refs = update s.refs bid (s.refs bid - 1)
  some (
      if s.refs bid - 1 == 0
      then record {
        off = update s.off bid 0;
        refs = refs;
        pool = record { free = update s.pool.free s.pool.top bid; top = s.pool.top + 1 };
      }
      else record s { refs = refs })

-- `fh_xio_slices_alloc`: the pools at the start
abbrev pub full_pool : ℕ → Pool
full_pool n = record { free = λ i. i; top = n }

unfoldable pub slices_alloc : Slices
slices_alloc = record { off = λ i. 0; refs = λ i. 0; pool = full_pool xio_buf_count }
