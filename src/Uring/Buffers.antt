-- ===== src/Uring/Buffers.antt =====
-- The reference counts of the provided buffers in src/event/xio_uring.c, and the loop of
-- completions.
use freehttpd.Base.{
  ℕ, ◌+◌, ◌-◌, ◌%◌, ◌≤◌, ◌<◌, ◌≡◌, ◌≢◌, refl, sym, ◌∙◌, ap, inl, inr, Bool, true, false, not, List,
  [], ◌∷◌, some, ◌==◌, if◌then◌else◌, update, ◌||◌, ◌&&◌, arith, Bool-cases, read_lem, update_self,
  update_ne, u32,
}
use freehttpd.Uring.Data.{Xio, BufCall, xio_ring_buf_count, xio_ring_buf_size}
use freehttpd.Uring.Wait.{Flags, flag_done, set_done, next_offset, use_buffer, result_free_internal}

-- the word that stands for `n` results, and for whether the kernel is done with the buffer
unfoldable pub word : ℕ → Bool → ℕ
word n true = n + flag_done
word n false = n

-- The buffer has `n` results that are not freed, the kernel is done with it or not, and the next
-- bytes go to `offset`.
pub record IsTracked (xio : Xio) (bid n : ℕ) (is_done : Bool) (offset : ℕ) : Type 0 where
  pub inside : bid < xio_ring_buf_count
  pub small : n < flag_done
  pub count : xio.buf_refcount bid ≡ word n is_done
  pub at : xio.buf_offsets bid ≡ offset
  pub below : offset ≤ xio_ring_buf_size

-- the word of one more result
next_word :
    (n : ℕ) (is_done more : Bool)
    → n + 1 < flag_done
    → (if more then u32 (word n is_done + 1) else set_done (u32 (word n is_done + 1)))
      ≡ word (n + 1) (is_done || not more)
unfolding word set_done
next_word n true true h = ground arith
next_word n true false h = ground arith
next_word n false true h = ground arith
next_word n false false h = ground arith

next_offset_le : (offset size : ℕ) → next_offset offset size ≤ xio_ring_buf_size
unfolding next_offset
next_offset_le offset size = ground arith

abbrev pub used_word : Xio → Flags → ℕ
used_word xio flags =
    if flags.buf_more
    then u32 (xio.buf_refcount flags.bid + 1)
    else set_done (u32 (xio.buf_refcount flags.bid + 1))

abbrev pub used : Xio → Flags → ℕ → Xio
used xio flags size = record xio {
  buf_refcount = update xio.buf_refcount flags.bid (used_word xio flags);
  buf_offsets = update xio.buf_offsets flags.bid (next_offset (xio.buf_offsets flags.bid) size);
}

-- A completion with a provided buffer that is tracked, with room for one more result in its
-- count, succeeds: it counts one more result, remembers when the kernel says that no more data
-- comes, advances the offset up to the end of the buffer, and touches no other buffer.
pub use_buffer_lem :
    (xio : Xio) (flags : Flags) (size n : ℕ) (is_done : Bool) (offset : ℕ)
    → IsTracked xio flags.bid n is_done offset
    → n + 1 < flag_done
    → (xio' : Xio) × ((use_buffer xio flags size ≡ some xio')
        × (IsTracked xio' flags.bid
              (n + 1)
              (is_done || not flags.buf_more)
              (next_offset offset size)
            × ((other : ℕ)
                → flags.bid ≢ other
                → (xio'.buf_refcount other ≡ xio.buf_refcount other)
                  × (xio'.buf_offsets other ≡ xio.buf_offsets other))))
unfolding use_buffer
use_buffer_lem xio flags size n is_done offset t h = (
  used xio flags size,
  (
    (rw (
      read_lem xio.buf_refcount xio_ring_buf_count flags.bid t.inside,
      read_lem xio.buf_offsets xio_ring_buf_count flags.bid t.inside,
    )),
    (
      record {
        inside = t.inside;
        small = h;
        count =
            update_self xio.buf_refcount flags.bid flags.bid (used_word xio flags) refl
            ∙ ap (λ w. if flags.buf_more then u32 (w + 1) else set_done (u32 (w + 1))) t.count
            ∙ next_word n is_done flags.buf_more h;
        at =
            update_self xio.buf_offsets flags.bid flags.bid
              (next_offset (xio.buf_offsets flags.bid) size) refl
            ∙ ap (λ o. next_offset o size) t.at;
        below = next_offset_le offset size;
      },
      λ other ne. (
        update_ne xio.buf_refcount flags.bid other (used_word xio flags) ne,
        update_ne xio.buf_offsets flags.bid other (next_offset (xio.buf_offsets flags.bid) size) ne,
      ),
    ),
  ),
)

-- Whether a buffer goes back to the ring when one of its `n + 1` results is freed.
unfoldable pub is_last : ℕ → Bool → Bool
is_last n is_done = (n == 0) && is_done

-- the test of the source
last_word :
    (n : ℕ) (is_done : Bool)
    → n + 1 < flag_done
    → (word (n + 1) is_done - 1 == flag_done) ≡ is_last n is_done
unfolding word is_last
last_word n true h = ground arith
last_word n false h = ground arith

live_word :
    (n : ℕ) (is_done : Bool)
    → n + 1 < flag_done
    → not (word (n + 1) is_done % flag_done == 0) ≡ true
unfolding word
live_word n true h = ground arith
live_word n false h = ground arith

down_word : (n : ℕ) (is_done : Bool) → word (n + 1) is_done - 1 ≡ word n is_done
unfolding word
down_word n true = omega arith
down_word n false = omega arith

abbrev returned : Xio → ℕ → ℕ → Xio
returned xio bid offset = record xio {
  buf_offsets = update xio.buf_offsets bid 0;
  buf_refcount = update xio.buf_refcount bid 0;
  buf_calls = BufCall.buf_ring_add bid offset ∷ xio.buf_calls;
}

abbrev kept : Xio → ℕ → ℕ → Xio
kept xio bid count = record xio { buf_refcount = update xio.buf_refcount bid count }

-- `fh_xio_result_free_internal` in terms of the state of the buffer
free_step :
    (xio : Xio) (flags : Flags) (ring_offset n : ℕ) (is_done : Bool) (offset : ℕ)
    → flags.f_buffer ≡ true
    → IsTracked xio flags.bid (n + 1) is_done offset
    → result_free_internal xio flags ring_offset ≡ (
        if is_last n is_done
        then some (true, returned xio flags.bid ring_offset)
        else some (false, kept xio flags.bid (word n is_done)))
unfolding result_free_internal
free_step xio flags ring_offset n is_done offset f t = rw (
  f,
  read_lem xio.buf_refcount xio_ring_buf_count flags.bid t.inside,
  t.count,
  live_word n is_done t.small,
  last_word n is_done t.small,
  down_word n is_done,
)

last_zero : (n : ℕ) (is_done : Bool) → is_last n is_done ≡ true → word n (is_done && false) ≡ 0
unfolding is_last word
last_zero n true h = ground arith
last_zero n false h = ground arith

and_true : (b : Bool) → (b && true) ≡ b
and_true true = refl
and_true false = refl

lt_of_suc : (n m : ℕ) → n + 1 < m → n < m
lt_of_suc n m h = omega arith

-- the other buffers keep their counts and offsets
abbrev pub SameOthers : Xio → Xio → ℕ → Type 0
SameOthers xio xio' bid =
    (other : ℕ)
    → bid ≢ other
    → (xio'.buf_refcount other ≡ xio.buf_refcount other)
      × (xio'.buf_offsets other ≡ xio.buf_offsets other)

pub result_free_all :
    (xio : Xio) (flags : Flags) (ring_offset n : ℕ) (is_done : Bool) (offset : ℕ)
    → flags.f_buffer ≡ true
    → IsTracked xio flags.bid (n + 1) is_done offset
    → (xio' : Xio) × ((result_free_internal xio flags ring_offset ≡ some (is_last n is_done, xio'))
        × (IsTracked xio' flags.bid n
              (is_done && not (is_last n is_done))
              (if is_last n is_done then 0 else offset)
            × (xio'.buf_calls ≡ (
                if is_last n is_done
                then BufCall.buf_ring_add flags.bid ring_offset ∷ xio.buf_calls
                else xio.buf_calls))
            × SameOthers xio xio' flags.bid))
result_free_all xio flags ring_offset n is_done offset f t = elim (Bool-cases (is_last n is_done)) [
  | inl y ↦ (
    returned xio flags.bid ring_offset,
    (
      (rw (free_step xio flags ring_offset n is_done offset f t, y)),
      (
        (rw (y) (record {
          inside = t.inside;
          small = lt_of_suc n flag_done t.small;
          count =
              update_self xio.buf_refcount flags.bid flags.bid 0 refl ∙ sym (last_zero n is_done y);
          at = update_self xio.buf_offsets flags.bid flags.bid 0 refl;
          below = omega arith;
        })),
        (rw (y)),
        λ other ne. (
          update_ne xio.buf_refcount flags.bid other 0 ne,
          update_ne xio.buf_offsets flags.bid other 0 ne,
        ),
      ),
    ),
  )
  | inr y ↦ (
    kept xio flags.bid (word n is_done),
    (
      (rw (free_step xio flags ring_offset n is_done offset f t, y)),
      (
        (rw (y) (record {
          inside = t.inside;
          small = lt_of_suc n flag_done t.small;
          count =
              update_self xio.buf_refcount flags.bid flags.bid (word n is_done) refl
              ∙ ap (λ d. word n d) (sym (and_true is_done));
          at = t.at;
          below = t.below;
        })),
        (rw (y)),
        λ other ne. (update_ne xio.buf_refcount flags.bid other (word n is_done) ne, refl),
      ),
    ),
  )
]

-- Freeing one of the `n + 1` results of a tracked buffer succeeds: the buffer goes back to the
-- ring exactly when it was the last result and the kernel is done with the buffer, and then it
-- starts anew; otherwise the buffer has one result less.
pub result_free_lem :
    (xio : Xio) (flags : Flags) (ring_offset n : ℕ) (is_done : Bool) (offset : ℕ)
    → flags.f_buffer ≡ true
    → IsTracked xio flags.bid (n + 1) is_done offset
    → (xio' : Xio) × ((result_free_internal xio flags ring_offset ≡ some (is_last n is_done, xio'))
        × (IsTracked xio' flags.bid n
              (is_done && not (is_last n is_done))
              (if is_last n is_done then 0 else offset)
            × (xio'.buf_calls ≡ (
                if is_last n is_done
                then BufCall.buf_ring_add flags.bid ring_offset ∷ xio.buf_calls
                else xio.buf_calls))))
result_free_lem xio flags ring_offset n is_done offset f t =
    let (xio', (run, (tracked, calls, others))) =
      result_free_all xio flags ring_offset n is_done offset f t in
    (xio', (run, (tracked, calls)))

-- the number of members
unfoldable pub length {ℓ} : {A : Type ℓ} → List A → ℕ
length [] = 0
length (x ∷ xs) = length xs + 1
