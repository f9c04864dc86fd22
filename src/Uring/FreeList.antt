-- ===== src/Uring/FreeList.antt =====
-- The doubly linked free list of src/event/xio_uring.c as a stack.
use freehttpd.Base.{
  ℕ, ◌+◌, ◌-◌, ◌<◌, ◌≡◌, ◌≢◌, refl, sym, ◌∙◌, ap, subst, List, [], ◌∷◌, update, arith, eq→==, ne→==,
  update_self, update_ne, gt→leb,
}
use freehttpd.Uring.Buffers.{length}
use freehttpd.Uring.Data.{Xio, data_disown, data_get, xio_max_data_freelist_count}

-- `p` is not a member
unfoldable pub IsFresh : ℕ → List ℕ → Type 0
IsFresh p [] = Unit {0}
IsFresh p (x ∷ xs) = p ≢ x × IsFresh p xs

-- From `p` the list goes back through `xs` to the head; `n` is the `next` of its first record.
unfoldable pub IsLinked : Xio → ℕ → ℕ → List ℕ → Type 0
unfolding IsFresh
IsLinked xio n p [] = (p ≡ 0) × (xio.data_head ≡ n)
IsLinked xio n p (x ∷ xs) =
    (p ≡ x) × (x ≢ 0 × ((xio.next x ≡ n) × (IsFresh x xs × IsLinked xio x (xio.prev x) xs)))

-- The free list holds the records of a stack, the newest first.
unfoldable pub IsStack : Xio → List ℕ → Type 0
unfolding IsLinked
IsStack xio xs = IsLinked xio 0 xio.data_tail xs × (xio.data_count ≡ length xs)

-- a change of the links of two records that are not in the list
IsLinked-frame :
    (xio xio' : Xio) (a b : ℕ)
    → xio'.data_head ≡ xio.data_head
    → ((y : ℕ) → a ≢ y → b ≢ y → (xio'.next y ≡ xio.next y) × (xio'.prev y ≡ xio.prev y))
    → (n p : ℕ) (xs : List ℕ) → IsFresh a xs
    → IsFresh b xs
    → IsLinked xio n p xs
    → IsLinked xio' n p xs
unfolding IsFresh IsLinked
IsLinked-frame xio xio' a b head same n p [] fa fb (e, h) = (e, head ∙ h)
IsLinked-frame xio xio' a b head same n p (x ∷ xs) fa fb (e, (ne, (next, (fresh, rest)))) =
    let keep = same x (fa.0) (fb.0) in
    (
      e,
      (
        ne,
        (
          keep.0 ∙ next,
          (
            fresh,
            subst (λ (q : ℕ). IsLinked xio' x q xs) (sym (keep.1))
                (IsLinked-frame xio xio' a b head same x (xio.prev x) xs (fa.1) (fb.1) rest),
          ),
        ),
      ),
    )

-- the state after a record is put on a list that is empty, and on one that is not
abbrev pushed_first : Xio → ℕ → Xio
pushed_first xio p = record xio {
  next = update xio.next p 0;
  prev = update xio.prev p xio.data_tail;
  data_head = p;
  data_tail = p;
  data_count = xio.data_count + 1;
}

abbrev pushed : Xio → ℕ → Xio
pushed xio p = record xio {
  next = update (update xio.next p 0) xio.data_tail p;
  prev = update xio.prev p xio.data_tail;
  data_tail = p;
  data_count = xio.data_count + 1;
}

pushed_links :
    (xio : Xio) (p y : ℕ)
    → p ≢ y
    → xio.data_tail ≢ y
    → ((pushed xio p).next y ≡ xio.next y) × ((pushed xio p).prev y ≡ xio.prev y)
pushed_links xio p y np nt = (
  update_ne (update xio.next p 0) xio.data_tail y p nt ∙ update_ne xio.next p y 0 np,
  update_ne xio.prev p y xio.data_tail np,
)

-- `fh_xio_data_disown` of a record that is not on the list, while the list holds fewer than
-- XIO_MAX_DATA_FREELIST_COUNT records, pushes it on the stack.
pub data_disown_lem :
    (xio : Xio) (p : ℕ) (xs : List ℕ)
    → IsStack xio xs
    → p ≢ 0
    → IsFresh p xs
    → xio.data_count < xio_max_data_freelist_count
    → IsStack (data_disown xio p) (p ∷ xs)
unfolding data_disown IsStack IsLinked IsFresh length
data_disown_lem xio p [] ((e, h), c) np f room =
    rw (gt→leb xio_max_data_freelist_count xio.data_count room, eq→== xio.data_tail 0 e)
      (
        (
          refl,
          (
            np,
            (
              update_self xio.next p p 0 refl,
              (tt, (update_self xio.prev p p xio.data_tail refl ∙ e, refl)),
            ),
          ),
        ),
        ap (λ k. k + 1) c,
      )
data_disown_lem xio p (x ∷ xs) ((e, (nx, (next, (fresh, rest)))), c) np f room =
    let xio' = pushed xio p in
    let nt : xio.data_tail ≢ 0 = λ z. nx (sym e ∙ z) in
    let tail_fresh = subst (λ (q : ℕ). IsFresh q xs) (sym e) fresh in
    let tail_ne : xio.data_tail ≢ p = λ z. f.0 (sym z ∙ e) in
    let linked =
      IsLinked-frame xio xio' p xio.data_tail refl (pushed_links xio p) x (xio.prev x) xs (f.1)
        tail_fresh rest in
    let back = update_ne xio.prev p x xio.data_tail (f.0) in
    let same : data_disown xio p ≡ xio' = rw (
      data_disown,
      gt→leb xio_max_data_freelist_count xio.data_count room,
      ne→== xio.data_tail 0 nt,
    ) in
    subst (λ (w : Xio). IsStack w (p ∷ (x ∷ xs))) (sym same)
      (
        (
          refl,
          (
            np,
            (
              update_ne (update xio.next p 0) xio.data_tail p p tail_ne
                  ∙ update_self xio.next p p 0 refl,
              (
                f,
                (
                  update_self xio.prev p p xio.data_tail refl ∙ e,
                  (
                    nx,
                    (
                      update_self (update xio.next p 0) xio.data_tail x p e,
                      (fresh, subst (λ (q : ℕ). IsLinked xio' x q xs) (sym back) linked),
                    ),
                  ),
                ),
              ),
            ),
          ),
        ),
        ap (λ k. k + 1) c,
      )

-- the state after the last record and after another record is taken
abbrev popped_last : Xio → Xio
popped_last xio = record xio {
  data_tail = xio.prev xio.data_tail;
  data_head = 0;
  data_count = xio.data_count - 1;
  next = update xio.next xio.data_tail 0;
  prev = update xio.prev xio.data_tail 0;
}

abbrev popped : Xio → Xio
popped xio = record xio {
  data_tail = xio.prev xio.data_tail;
  data_count = xio.data_count - 1;
  next = update (update xio.next (xio.prev xio.data_tail) 0) xio.data_tail 0;
  prev = update xio.prev xio.data_tail 0;
}

popped_links :
    (xio : Xio) (y : ℕ)
    → xio.data_tail ≢ y
    → xio.prev xio.data_tail ≢ y
    → ((popped xio).next y ≡ xio.next y) × ((popped xio).prev y ≡ xio.prev y)
popped_links xio y nt np = (
  update_ne (update xio.next (xio.prev xio.data_tail) 0) xio.data_tail y 0 nt
      ∙ update_ne xio.next (xio.prev xio.data_tail) y 0 np,
  update_ne xio.prev xio.data_tail y 0 nt,
)

count_down : (c n : ℕ) → c ≡ n + 1 → (c - 1 ≡ n) × (c ≢ 0)
count_down c n e = omega arith

-- `fh_xio_data_get` on a list that is not empty pops the newest record from the stack, whatever
-- `malloc` would return.
pub data_get_lem :
    (xio : Xio) (malloc x : ℕ) (xs : List ℕ)
    → IsStack xio (x ∷ xs)
    → ((data_get xio malloc).0 ≡ x) × IsStack ((data_get xio malloc).1) xs
unfolding data_get IsStack IsLinked IsFresh length
data_get_lem xio malloc x [] ((e, (nx, (next, (fresh, (p, h))))), c) =
    let down = count_down xio.data_count 0 c in
    let last : xio.prev xio.data_tail ≡ 0 = ap xio.prev e ∙ p in
    rw (ne→== xio.data_count 0 (down.1), eq→== (xio.prev xio.data_tail) 0 last)
      (e, ((last, refl), down.0))
data_get_lem xio malloc x (z ∷ zs)
      ((e, (nx, (next, (fresh, (p, (nz, (zx, (zfresh, rest)))))))), c) =
    let xio' = popped xio in
    let down = count_down xio.data_count (length zs + 1) c in
    let above : xio.prev xio.data_tail ≡ z = ap xio.prev e ∙ p in
    let some_left : xio.prev xio.data_tail ≢ 0 = λ o. nz (sym above ∙ o) in
    let tail_ne : xio.data_tail ≢ z = λ o. fresh.0 (sym e ∙ o) in
    let linked =
      IsLinked-frame xio xio' xio.data_tail (xio.prev xio.data_tail) refl (popped_links xio) z
        (xio.prev z) zs (subst (λ (q : ℕ). IsFresh q zs) (sym e) (fresh.1))
        (subst (λ (q : ℕ). IsFresh q zs) (sym above) zfresh) rest in
    let same : data_get xio malloc ≡ (xio.data_tail, xio') =
      rw (data_get, ne→== xio.data_count 0 (down.1), ne→== (xio.prev xio.data_tail) 0 some_left) in
    subst (λ (r : ℕ × Xio). (r.0 ≡ x) × IsStack (r.1) (z ∷ zs)) (sym same)
      (
        e,
        (
          (
            above,
            (
              nz,
              (
                update_ne (update xio.next (xio.prev xio.data_tail) 0) xio.data_tail z 0 tail_ne
                    ∙ update_self xio.next (xio.prev xio.data_tail) z 0 above,
                (
                  zfresh,
                  subst (λ (q : ℕ). IsLinked xio' z q zs)
                      (sym (update_ne xio.prev xio.data_tail z 0 tail_ne)) linked,
                ),
              ),
            ),
          ),
          down.0,
        ),
      )
