-- ===== src/Uring/LifeLaws.antt =====
-- The resources of a context of src/event/xio_uring.c, and a new context.
use freehttpd.Base.{
  ℕ, zero, suc, ◌≡◌, ◌<◌, refl, eq_or_ne, inl, inr, sym, subst, Bool, true, false, List, [], ◌∷◌,
  Option, none, some, arith, if◌then◌else◌,
}
use freehttpd.Uring.Data.{Data, BufCall, xio_ring_buf_count}
use freehttpd.Uring.Buffers.{word, length}
use freehttpd.Uring.FreeList.{IsStack, IsLinked}
use freehttpd.Uring.FreeAll.{AreTracked}
use freehttpd.Uring.Life.{
  Resource, xio_memory, ring_kmem, ring, buf_ring, buf, Act, acquired, released, ring_alloc_mem,
  Setup, Parts, Created, null, context, release_if, free_acts, setup_buffers, init_params_ring,
  create_uring, add_buffers, new_xio,
}

-- which resources are held
pub record Held : Type 0 where
  pub memory : Bool
  pub kmem : Bool
  pub queue : Bool
  pub ring_of_buffers : Bool
  pub buffers : Bool

abbrev pub nothing : Held
nothing = record {
  memory = false;
  kmem = false;
  queue = false;
  ring_of_buffers = false;
  buffers = false;
}

unfoldable pub is_held : Held → Resource → Bool
is_held h xio_memory = h.memory
is_held h ring_kmem = h.kmem
is_held h ring = h.queue
is_held h buf_ring = h.ring_of_buffers
is_held h buf = h.buffers

unfoldable pub mark : Held → Resource → Bool → Held
mark h xio_memory b = record h { memory = b }
mark h ring_kmem b = record h { kmem = b }
mark h ring b = record h { queue = b }
mark h buf_ring b = record h { ring_of_buffers = b }
mark h buf b = record h { buffers = b }

-- `none` is a resource that is acquired twice, or released and not held
unfoldable pub perform : List Act → Held → Option Held
unfolding is_held mark
perform [] h = some h
perform (acquired r ∷ acts) h = if is_held h r then none else perform acts (mark h r true)
perform (released r ∷ acts) h = if is_held h r then perform acts (mark h r false) else none

-- what a context holds, and NULL nothing
unfoldable pub held_by : Created → Held
held_by (null e) = nothing
held_by (context parts) = record {
  memory = true;
  kmem = parts.has_kmem;
  queue = true;
  ring_of_buffers = parts.has_buf_ring;
  buffers = parts.has_buf;
}

free_acts_lem : (parts : Parts) → perform (free_acts parts) (held_by (context parts)) ≡ some nothing
unfolding perform free_acts release_if held_by is_held mark
free_acts_lem parts = ground arith

made_lem :
    (env : Setup) → perform (create_uring env).1 nothing ≡ some (held_by (create_uring env).0)
unfolding perform create_uring ring_alloc_mem init_params_ring setup_buffers free_acts release_if
    held_by is_held mark
made_lem env = ground arith

-- Whatever the kernel and the allocator answer, `fh_xio_create` acquires no resource twice and
-- releases none that it does not hold; it ends with exactly the resources of the context that it
-- returns, and with none where it returns NULL. `fh_xio_free` then releases each of them once, and
-- all of them.
pub create_uring_lem :
    (env : Setup)
    → (perform (create_uring env).1 nothing ≡ some (held_by (create_uring env).0))
      × ((parts : Parts)
          → (create_uring env).0 ≡ context parts
          → perform (free_acts parts) (held_by (create_uring env).0) ≡ some nothing)
create_uring_lem env = (
  made_lem env,
  λ parts e.
      subst (λ (c : Created). perform (free_acts parts) (held_by c) ≡ some nothing) (sym e)
        (free_acts_lem parts),
)

-- a call is among the calls
pub data IsMade (call : BufCall) : List BufCall → Type 0 where
  newest : {calls : List BufCall} → IsMade call (call ∷ calls)
  older : {other : BufCall} {calls : List BufCall} → IsMade call calls → IsMade call (other ∷ calls)

add_buffers-IsMade : (n bid : ℕ) → bid < n → IsMade (BufCall.buf_ring_add bid bid) (add_buffers n)
unfolding add_buffers
add_buffers-IsMade zero bid lt = absurd (omega arith)
add_buffers-IsMade (suc n) bid lt = elim (eq_or_ne n bid) [
  | inl e ↦ subst (λ (b : ℕ). IsMade (BufCall.buf_ring_add b b) (add_buffers (suc n))) e newest
  | inr ne ↦ older (add_buffers-IsMade n bid (omega arith))
]

length-add_buffers : (n : ℕ) → length (add_buffers n) ≡ n
unfolding add_buffers length
length-add_buffers zero = refl
length-add_buffers (suc n) = let ih = length-add_buffers n in omega arith

-- A new context has no record on its free list, and no buffer has a result or is done. Each buffer
-- was given to the ring, at the ring offset of its number, with one call for each buffer and no
-- more, and then the ring advanced by their number.
pub new_xio_lem :
    (next prev : ℕ → ℕ) (records : ℕ → Data)
    → IsStack (new_xio next prev records) []
      × AreTracked
          (new_xio next prev records)
          (record { results = λ _. 0; is_done = λ _. false; offset = λ _. 0 })
      × ((calls : List BufCall) × ((new_xio next prev records).buf_calls
            ≡ BufCall.buf_ring_advance xio_ring_buf_count ∷ calls)
          × ((bid : ℕ) → bid < xio_ring_buf_count → IsMade (BufCall.buf_ring_add bid bid) calls)
          × (length calls ≡ xio_ring_buf_count))
unfolding new_xio IsStack AreTracked IsLinked word length
new_xio_lem next prev records = (
  ((refl, refl), refl),
  (λ bid lt. record {
    inside = lt;
    small = omega arith;
    count = refl;
    at = refl;
    below = omega arith;
  }),
  (
    add_buffers xio_ring_buf_count,
    refl,
    add_buffers-IsMade xio_ring_buf_count,
    length-add_buffers xio_ring_buf_count,
  ),
)
