-- ===== src/Uring/FreeAll.antt =====
-- `fh_xio_results_free` of src/event/xio_uring.c: several results are freed at once, and the buffers
-- that go back to the ring get the offsets from 0 on.
use freehttpd.Base.{
  ℕ, ◌+◌, ◌-◌, ◌<◌, ◌≡◌, refl, sym, ◌∙◌, subst, inl, inr, ap, Bool, true, false, not, List, [], ◌∷◌,
  some, if◌then◌else◌, update, ◌&&◌, arith, Bool-cases, eq_or_ne, eq→==, ne→==,
}
use freehttpd.Uring.Data.{Xio, BufCall, xio_ring_buf_count}
use freehttpd.Uring.Wait.{Flags, result_free_internal, advance, results_free_loop, results_free}
use freehttpd.Uring.Buffers.{IsTracked, is_last, result_free_all, length}

-- the state of all buffers: how many results each has, whether the kernel is done with it, and where
-- its next bytes go
pub record Counts : Type 0 where
  pub results : ℕ → ℕ
  pub is_done : ℕ → Bool
  pub offset : ℕ → ℕ

unfoldable pub AreTracked : Xio → Counts → Type 0
AreTracked xio c =
    (bid : ℕ)
    → bid < xio_ring_buf_count
    → IsTracked xio bid (c.results bid) (c.is_done bid) (c.offset bid)

-- one result of a buffer is freed
unfoldable pub freed : Counts → ℕ → Counts
freed c bid =
    let n = c.results bid - 1 in
    let last = is_last n (c.is_done bid) in
    record {
      results = update c.results bid n;
      is_done = update c.is_done bid (c.is_done bid && not last);
      offset = update c.offset bid (if last then 0 else c.offset bid);
    }

-- each result with a buffer is counted at its buffer
unfoldable pub AreHeld : Counts → List Flags → Type 0
AreHeld c [] = Unit
AreHeld c (f ∷ fs) =
    let rest = AreHeld (if f.f_buffer then freed c f.bid else c) fs in
    (f.f_buffer ≡ true → (f.bid < xio_ring_buf_count) × (0 < c.results f.bid)) × rest

-- all results are freed
unfoldable pub freed_all : Counts → List Flags → Counts
freed_all c [] = c
freed_all c (f ∷ fs) = freed_all (if f.f_buffer then freed c f.bid else c) fs

-- the buffers that are finished, in the order of the results that finish them: the last result of
-- the buffer is freed, and the kernel is done with it
unfoldable pub returned : Counts → List Flags → List ℕ
returned c [] = []
returned c (f ∷ fs) =
    let rest = returned (if f.f_buffer then freed c f.bid else c) fs in
    if f.f_buffer && is_last (c.results f.bid - 1) (c.is_done f.bid) then f.bid ∷ rest else rest

-- the calls, the newest first, after each of the buffers is given back, at the ring offsets from `k`
-- on
unfoldable pub given_back : ℕ → List ℕ → List BufCall → List BufCall
given_back k [] old = old
given_back k (bid ∷ bids) old = given_back (k + 1) bids (BufCall.buf_ring_add bid k ∷ old)

IsTracked-other :
    (xio : Xio) (xio' : Xio) (bid n : ℕ) (d : Bool) (o : ℕ)
    → IsTracked xio bid n d o
    → xio'.buf_refcount bid ≡ xio.buf_refcount bid
    → xio'.buf_offsets bid ≡ xio.buf_offsets bid
    → IsTracked xio' bid n d o
IsTracked-other xio xio' bid n d o t r s = record {
  inside = t.inside;
  small = t.small;
  count = r ∙ t.count;
  at = s ∙ t.at;
  below = t.below;
}

-- one call of `fh_xio_result_free_internal` on a buffer
free_one :
    (xio : Xio) (c : Counts) (f : Flags) (k : ℕ)
    → AreTracked xio c
    → f.f_buffer ≡ true
    → f.bid < xio_ring_buf_count
    → 0 < c.results f.bid
    → (xio' : Xio) × (result_free_internal xio f k
        ≡ some (is_last (c.results f.bid - 1) (c.is_done f.bid), xio'))
      × AreTracked xio' (freed c f.bid)
      × (xio'.buf_calls ≡ (
          if is_last (c.results f.bid - 1) (c.is_done f.bid)
          then BufCall.buf_ring_add f.bid k ∷ xio.buf_calls
          else xio.buf_calls))
unfolding AreTracked freed
free_one xio c f k t has lt pos =
    let n = c.results f.bid - 1 in
    let d = c.is_done f.bid in
    let up : c.results f.bid ≡ n + 1 = omega arith in
    let here : IsTracked xio f.bid (n + 1) d (c.offset f.bid) =
      subst (λ (m : ℕ). IsTracked xio f.bid m d (c.offset f.bid)) up (t f.bid lt) in
    let (xio', (run, (tracked, calls, others))) =
      result_free_all xio f k n d (c.offset f.bid) has here in
    (
      xio',
      run,
      (λ bid h. elim (eq_or_ne f.bid bid) [
        | inl e ↦
            subst
              (λ (b : ℕ).
                IsTracked xio' b ((freed c f.bid).results b) ((freed c f.bid).is_done b)
                  ((freed c f.bid).offset b))
              e (rw (eq→== f.bid f.bid refl) tracked)
        | inr ne ↦
            let (r, s) = others bid ne in
            rw (ne→== f.bid bid ne) (
              IsTracked-other xio xio' bid (c.results bid) (c.is_done bid) (c.offset bid) (t bid h)
                r s)
      ]),
      calls,
    )

no_buffer :
    (xio : Xio) (f : Flags) (k : ℕ)
    → f.f_buffer ≡ false
    → result_free_internal xio f k ≡ some (false, xio)
unfolding result_free_internal
no_buffer xio f k e = rw (e)

-- What freeing several results leaves: the counts are the earlier ones with each result freed, and
-- the calls are one for each finished buffer.
pub record AreFreed (xio : Xio) (c : Counts) (fs : List Flags) (k n : ℕ) (xio' : Xio) : Type 0 where
  pub tracked : AreTracked xio' (freed_all c fs)
  pub number : n ≡ k + length (returned c fs)
  pub calls : xio'.buf_calls ≡ given_back k (returned c fs) xio.buf_calls

returned_cons :
    (c : Counts) (f : Flags) (fs : List Flags) (b : Bool)
    → f.f_buffer ≡ true
    → is_last (c.results f.bid - 1) (c.is_done f.bid) ≡ b
    → returned c (f ∷ fs)
      ≡ (if b then f.bid ∷ returned (freed c f.bid) fs else returned (freed c f.bid) fs)
unfolding returned
returned_cons c f fs b y last = rw (y, last) refl

freed_cons :
    (c : Counts) (f : Flags) (fs : List Flags)
    → f.f_buffer ≡ true
    → freed_all c (f ∷ fs) ≡ freed_all (freed c f.bid) fs
unfolding freed_all
freed_cons c f fs y = rw (y) refl

-- one result before the others
free_cons :
    (f : Flags) (fs : List Flags) (xio xio' xio'' : Xio) (c : Counts) (k n : ℕ)
    → f.f_buffer ≡ true
    → (b : Bool) → is_last (c.results f.bid - 1) (c.is_done f.bid) ≡ b
    → xio'.buf_calls ≡ (if b then BufCall.buf_ring_add f.bid k ∷ xio.buf_calls else xio.buf_calls)
    → AreFreed xio' (freed c f.bid) fs (if b then k + 1 else k) n xio''
    → AreFreed xio c (f ∷ fs) k n xio''
unfolding given_back length
free_cons f fs xio xio' xio'' c k n y true last calls all =
    let number = all.number in
    let same = returned_cons c f fs true y last in
    record {
      tracked = subst (AreTracked xio'') (sym (freed_cons c f fs y)) all.tracked;
      number = subst (λ (bids : List ℕ). n ≡ k + length bids) (sym same) (omega arith);
      calls =
          all.calls
          ∙ ap (given_back (k + 1) (returned (freed c f.bid) fs)) calls
          ∙ ap (λ (bids : List ℕ). given_back k bids xio.buf_calls) (sym same);
    }
free_cons f fs xio xio' xio'' c k n y false last calls all =
    let same = returned_cons c f fs false y last in
    record {
      tracked = subst (AreTracked xio'') (sym (freed_cons c f fs y)) all.tracked;
      number = subst (λ (bids : List ℕ). n ≡ k + length bids) (sym same) all.number;
      calls =
          all.calls
          ∙ ap (given_back k (returned (freed c f.bid) fs)) calls
          ∙ ap (λ (bids : List ℕ). given_back k bids xio.buf_calls) (sym same);
    }

free_skip :
    (f : Flags) (fs : List Flags) (xio xio' : Xio) (c : Counts) (k n : ℕ)
    → f.f_buffer ≡ false
    → AreFreed xio c fs k n xio'
    → AreFreed xio c (f ∷ fs) k n xio'
unfolding freed_all returned
free_skip f fs xio xio' c k n z all = record {
  tracked = rw (z) all.tracked;
  number = rw (z) all.number;
  calls = rw (z) all.calls;
}

free_loop_lem :
    (fs : List Flags) (xio : Xio) (c : Counts) (k : ℕ)
    → AreTracked xio c
    → AreHeld c fs
    → (n : ℕ) × (xio' : Xio) × (results_free_loop xio fs k ≡ some (n, xio'))
      × AreFreed xio c fs k n xio'
unfolding results_free_loop AreHeld length freed_all returned given_back
free_loop_lem [] xio c k t held =
    (k, xio, refl, record { tracked = t; number = omega arith; calls = refl })
free_loop_lem (f ∷ fs) xio c k t (mine, rest) = elim (Bool-cases f.f_buffer) [
  | inl y ↦
      let (lt, pos) = mine y in
      let (xio', run, t', calls) = free_one xio c f k t y lt pos in
      let b = is_last (c.results f.bid - 1) (c.is_done f.bid) in
      let held' = subst (λ (h : Bool). AreHeld (if h then freed c f.bid else c) fs) y rest in
      let (n, xio'', loop, all) =
        free_loop_lem fs xio' (freed c f.bid) (if b then k + 1 else k) t' held' in
      (n, xio'', (rw (run) loop), free_cons f fs xio xio' xio'' c k n y b refl calls all)
  | inr z ↦
      let held' = subst (λ (h : Bool). AreHeld (if h then freed c f.bid else c) fs) z rest in
      let (n, xio', loop, all) = free_loop_lem fs xio c k t held' in
      (n, xio', (rw (no_buffer xio f k z) loop), free_skip f fs xio xio' c k n z all)
]

-- When all buffers are tracked and each of the results with a buffer is counted at its buffer,
-- `fh_xio_results_free` succeeds. It gives back to the ring each buffer whose last result is freed
-- when the kernel is done with it, in that order and at the ring offsets from 0 on, gives back no
-- other, and the ring advances by their number. Afterwards all buffers are tracked with the results
-- that are left.
pub results_free_lem :
    (fs : List Flags) (xio : Xio) (c : Counts)
    → AreTracked xio c
    → AreHeld c fs
    → (n : ℕ) × (xio' : Xio) × (results_free xio fs ≡ some (advance xio' n))
      × AreFreed xio c fs 0 n xio'
unfolding results_free
results_free_lem fs xio c t held =
    let (n, xio', loop, all) = free_loop_lem fs xio c 0 t held in (n, xio', (rw loop), all)
