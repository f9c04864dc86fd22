-- ===== src/Uring/Data.antt =====
-- The state of src/event/xio_uring.c, and its free list of request records. A pointer to a record
-- is a number, NULL is 0; `next`, `prev` and `records` are the memory behind it.
use freehttpd.Base.{
  ℕ, zero, suc, ◌+◌, ◌-◌, ◌*◌, ◌/◌, List, [], ◌∷◌, Option, leb, ◌==◌, if◌then◌else◌, update, u64,
}

-- `opdata` of `struct fh_xio_data`; the constructor is its `op`
pub data OpData : Type 0 where
  read : (fd buf size : ℕ) → OpData
  write : (fd buf size : ℕ) → OpData
  recv : (fd buf size flags : ℕ) → OpData
  send : (fd buf size flags : ℕ) → OpData
  accept : (fd addr addr_len flags : ℕ) → OpData

-- `struct fh_xio_data`, less its links
pub record Data : Type 0 where
  pub udata : ℕ
  pub opdata : OpData

-- the arguments of the calls of `io_uring_prep_*`
pub data Prep : Type 0 where
  prep_read : (fd buf size offset : ℕ) → Prep
  prep_write : (fd buf size offset : ℕ) → Prep
  prep_recv : (fd buf size flags : ℕ) → Prep
  prep_send : (fd buf size flags : ℕ) → Prep
  prep_accept : (fd addr addr_len flags : ℕ) → Prep

-- a submission entry: `buf_group` where IOSQE_BUFFER_SELECT is set
pub record Sqe : Type 0 where
  pub prep : Prep
  pub user_data : ℕ
  pub buf_group : Option ℕ

-- the calls on the ring of provided buffers
pub data BufCall : Type 0 where
  buf_ring_add : (bid offset : ℕ) → BufCall
  buf_ring_advance : (count : ℕ) → BufCall

-- `struct fh_xio`: `sqes` are the entries prepared, and `buf_calls` the calls on `buf_ring`, the
-- newest first.
pub record Xio : Type 0 where
  pub buf_offsets : ℕ → ℕ
  pub buf_refcount : ℕ → ℕ
  pub data_head : ℕ
  pub data_tail : ℕ
  pub data_count : ℕ
  pub next : ℕ → ℕ
  pub prev : ℕ → ℕ
  pub records : ℕ → Data
  pub sqes : List Sqe
  pub buf_calls : List BufCall

abbrev pub xio_ring_entries : ℕ
xio_ring_entries = 512

abbrev pub xio_ring_buf_count : ℕ
xio_ring_buf_count = 1024

abbrev pub xio_ring_buf_size : ℕ
xio_ring_buf_size = 4096

abbrev pub xio_ring_buf_bgid_default : ℕ
xio_ring_buf_bgid_default = 1

abbrev pub xio_max_data_freelist_count : ℕ
xio_max_data_freelist_count = 2048

-- `fh_xio_data_alloc`: `malloc` returns `p`, or NULL
unfoldable pub data_alloc : Xio → ℕ → ℕ × Xio
data_alloc xio p =
    if p == 0
    then (0, xio)
    else (p, record xio { next = update xio.next p 0; prev = update xio.prev p 0 })

-- `fh_xio_data_disown`
unfoldable pub data_disown : Xio → ℕ → Xio
data_disown xio p =
    if leb xio_max_data_freelist_count xio.data_count
    then xio
    else (if xio.data_tail == 0
        then record xio {
          next = update xio.next p 0;
          prev = update xio.prev p xio.data_tail;
          data_head = p;
          data_tail = p;
          data_count = xio.data_count + 1;
        }
        else record xio {
          next = update (update xio.next p 0) xio.data_tail p;
          prev = update xio.prev p xio.data_tail;
          data_tail = p;
          data_count = xio.data_count + 1;
        })

-- `fh_xio_data_get`: `p` is what `malloc` returns
unfoldable pub data_get : Xio → ℕ → ℕ × Xio
unfolding data_alloc
data_get xio p =
    if xio.data_count == 0
    then data_alloc xio p
    else (let got = xio.data_tail in
        let tail = xio.prev got in
        (
          got,
          (if tail == 0
              then record xio {
                data_tail = tail;
                data_head = 0;
                data_count = xio.data_count - 1;
                next = update xio.next got 0;
                prev = update xio.prev got 0;
              }
              else record xio {
                data_tail = tail;
                data_count = xio.data_count - 1;
                next = update (update xio.next tail 0) got 0;
                prev = update xio.prev got 0;
              }),
        ))

-- the size that `fh_xio_ring_alloc_mem` asks for: the next multiple of XIO_RING_HUGE_SIZE
unfoldable pub aligned_size : ℕ → ℕ
aligned_size requested_size =
    let huge = 2 * 1024 * 1024 in u64 (requested_size + huge - 1) / huge * huge

-- the loop of `fh_xio_free` over the free list: the records it frees
unfoldable pub free_list : Xio → ℕ → ℕ → List ℕ
free_list xio zero p = []
free_list xio (suc n) p = let rest = free_list xio n (xio.next p) in if p == 0 then [] else p ∷ rest
