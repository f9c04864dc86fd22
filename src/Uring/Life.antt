-- ===== src/Uring/Life.antt =====
-- The creation and the end of a context of src/event/xio_uring.c, as the resources that are acquired
-- and released. What the kernel and the allocator answer is an argument.
use freehttpd.Base.{
  ℕ, zero, suc, Bool, true, false, List, [], ◌∷◌, ◌++◌, Option, none, some, if◌then◌else◌, ◌&&◌,
}
use freehttpd.Uring.Data.{Data, Xio, BufCall, xio_ring_buf_count}

-- the struct, the memory of the ring, the ring, the ring of buffers, and the buffers
pub data Resource : Type 0 where
  xio_memory ring_kmem ring buf_ring buf : Resource

pub data Act : Type 0 where
  acquired released : Resource → Act

-- `fh_xio_ring_alloc_mem`: the two calls of `mmap`, of huge pages and of others
unfoldable pub ring_alloc_mem : Bool → Bool → Bool
ring_alloc_mem huge plain = if huge then true else plain

-- What `fh_xio_create` meets. An error of a call is the number in `some`.
pub record Setup : Type 0 where
  pub calloc_ok : Bool
  pub has_size : Bool
  pub mmap_huge : Bool
  pub mmap_plain : Bool
  pub init_mem_ok : Bool
  pub init_params : Option ℕ
  pub buf_ring_error : Option ℕ
  pub memalign_error : Option ℕ

-- the fields of `struct fh_xio` that say what `fh_xio_free` releases
pub record Parts : Type 0 where
  pub has_kmem : Bool
  pub has_buf_ring : Bool
  pub has_buf : Bool

-- NULL with the error number that is set, if any, or a context
pub data Created : Type 0 where
  null : Option ℕ → Created
  context : Parts → Created

unfoldable pub release_if : Bool → Resource → List Act → List Act
release_if true r acts = released r ∷ acts
release_if false r acts = acts

-- `fh_xio_free`, less the drain and the records of its free list
unfoldable pub free_acts : Parts → List Act
unfolding release_if
free_acts parts = release_if parts.has_buf_ring buf_ring (
    released ring
    ∷ release_if parts.has_buf buf (release_if parts.has_kmem ring_kmem (released xio_memory ∷ [])))

-- the ring of buffers, and then the buffers; the end of `fh_xio_create`
unfoldable pub setup_buffers : Setup → Bool → Created × List Act
unfolding free_acts
setup_buffers env kmem = elim env.buf_ring_error [
  | some e ↦
      (null (some e), free_acts (record { has_kmem = kmem; has_buf_ring = false; has_buf = false }))
  | none ↦ elim env.memalign_error [
    | some e ↦ (
      null (some e),
      acquired buf_ring
          ∷ free_acts (record { has_kmem = kmem; has_buf_ring = true; has_buf = false }),
    )
    | none ↦ (
      context (record { has_kmem = kmem; has_buf_ring = true; has_buf = true }),
      acquired buf_ring ∷ acquired buf ∷ [],
    )
  ]
]

abbrev and_then : List Act → Created × List Act → Created × List Act
and_then acts (made, rest) = (made, acts ++ rest)

-- the second try, with memory of the kernel
unfoldable pub init_params_ring : Setup → Created × List Act
unfolding setup_buffers
init_params_ring env = elim env.init_params [
  | some e ↦ (null (some e), released xio_memory ∷ [])
  | none ↦ and_then (acquired ring ∷ []) (setup_buffers env false)
]

-- `fh_xio_create`
unfoldable pub create_uring : Setup → Created × List Act
unfolding ring_alloc_mem init_params_ring setup_buffers
create_uring env =
    if env.calloc_ok
    then and_then (acquired xio_memory ∷ []) (
        if env.has_size && ring_alloc_mem env.mmap_huge env.mmap_plain
        then (if env.init_mem_ok
            then and_then (acquired ring_kmem ∷ acquired ring ∷ []) (setup_buffers env true)
            else and_then (acquired ring_kmem ∷ released ring_kmem ∷ []) (init_params_ring env))
        else init_params_ring env)
    else (null none, [])

-- the loop over the buffers of `fh_xio_create`, the newest call first
unfoldable pub add_buffers : ℕ → List BufCall
add_buffers zero = []
add_buffers (suc i) = BufCall.buf_ring_add i i ∷ add_buffers i

-- The fields of a new context, over memory at hand; `calloc` cleared the struct and its two arrays.
unfoldable pub new_xio : (ℕ → ℕ) → (ℕ → ℕ) → (ℕ → Data) → Xio
unfolding add_buffers
new_xio next prev records = record {
  buf_offsets = λ _. 0;
  buf_refcount = λ _. 0;
  data_head = 0;
  data_tail = 0;
  data_count = 0;
  next = next;
  prev = prev;
  records = records;
  sqes = [];
  buf_calls = BufCall.buf_ring_advance xio_ring_buf_count ∷ add_buffers xio_ring_buf_count;
}
