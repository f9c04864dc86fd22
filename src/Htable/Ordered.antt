-- ===== src/Htable/Ordered.antt =====
-- The order of a table of src/hash/htable.c: the entry list has the entries of the live cells, each
-- once. A new entry goes to its end, and a deleted one leaves it.
use native.Mathlib.Nat.{mod-eq_of_lt}
use freehttpd.Base.{
  ℕ, suc, ◌+◌, ◌-◌, ◌^◌, ◌≤◌, ◌<◌, ◌≡◌, ◌≢◌, refl, sym, ◌∙◌, ap, subst, inl, inr, true, false, List,
  [], ◌∷◌, ◌++◌, some, arith, eq_or_ne, update, update_ne, eq→==, ne→==, u32, u64,
}
use freehttpd.Htable.Table.{Keys, Entry, Table, Alloc, uint32_max, link_tail}
use freehttpd.Htable.Ops.{walk, take_index, insert_new}
use freehttpd.Htable.Live.{is_live, live_count-le}
use freehttpd.Htable.Valid.{IsValid}
use freehttpd.Htable.Links.{SameData}
use freehttpd.Htable.Insert.{small_next, take_index_lem, fill_entry_lem, set_index_lem}
use freehttpd.Htable.History.{length}
use freehttpd.Htable.Order.{In, In-append, In-left, In-right, Segment-same}
use freehttpd.Htable.OrderLinks.{IsListed, pairs, walk_lem, link_tail_order}

pub length_middle :
    (xs : List ℕ) (x : ℕ) (ys : List ℕ) → length (xs ++ (x ∷ ys)) ≡ suc (length (xs ++ ys))
unfolding length
length_middle [] x ys = refl
length_middle (y ∷ xs) x ys = ap (λ (n : ℕ). suc n) (length_middle xs x ys)

length_snoc : (xs : List ℕ) (x : ℕ) → length (xs ++ (x ∷ [])) ≡ suc (length xs)
unfolding length
length_snoc [] x = refl
length_snoc (y ∷ xs) x = ap (λ (n : ℕ). suc n) (length_snoc xs x)

module _ {K : Type 0} where
  -- The list has the entries `is`; they are those that the live cells name.
  pub record IsOrdered (t : Table K) (is : List ℕ) : Type 0 where
    pub listed : IsListed t.entry_capacity t.head_idx t.tail_idx t.entries is
    pub named :
        (x : ℕ)
        → In x is
        → (j : ℕ) × (j < t.index_capacity)
          × (is_live (t.index_list j) ≡ true)
          × (t.index_list j - 1 ≡ x)
    pub all :
        (j : ℕ)
        → j < t.index_capacity
        → is_live (t.index_list j) ≡ true
        → In (t.index_list j - 1) is
    pub counted : length is ≡ t.count

  -- such a table is walked in that order, and the fuel is enough
  pub walk-IsOrdered :
      (t : Table K) (is : List ℕ)
      → t.entry_capacity ≤ uint32_max
      → IsOrdered t is
      → walk t t.count t.head_idx ≡ some (pairs t.entries is)
  walk-IsOrdered t is small o =
      subst (λ (n : ℕ). walk t n t.head_idx ≡ some (pairs t.entries is)) o.counted
        (walk_lem t uint32_max t.head_idx is t.tail_idx small o.listed.segment)

  pub pairs-append :
      (es : ℕ → Entry K) (xs ys : List ℕ) → pairs es (xs ++ ys) ≡ pairs es xs ++ pairs es ys
  unfolding pairs
  pairs-append es [] ys = refl
  pairs-append es (x ∷ xs) ys = ap (λ r. ((es x).key, (es x).value) ∷ r) (pairs-append es xs ys)

  -- the same keys and values at the entries of the list
  pub pairs-same :
      (es es' : ℕ → Entry K) (is : List ℕ)
      → ((x : ℕ) → In x is → ((es' x).key ≡ (es x).key) × ((es' x).value ≡ (es x).value))
      → pairs es' is ≡ pairs es is
  unfolding pairs In
  pairs-same es es' [] same = refl
  pairs-same es es' (x ∷ xs) same =
      let (k, v) = same x (inl refl) in rw (k, v, pairs-same es es' xs (λ y i. same y (inr i)))

module _ {K : Type 0} (keys : Keys K) where
  -- the calls of `insert_new`, one by one
  insert_new_run :
      (env : Alloc K) (t : Table K) (key : K) (v x next' dc' dcap' idx : ℕ) (es' : ℕ → Entry K)
      (head' : ℕ)
      → x < t.index_capacity
      → idx < t.entry_capacity
      → u32 (idx + 1) ≡ idx + 1
      → u64 (t.count + 1) ≡ t.count + 1
      → take_index env t
        ≡ some (
          record t { entry_next_insert = next'; deleted_count = dc'; deleted_capacity = dcap' },
          idx,
        )
      → link_tail
          (record t {
            entry_next_insert = next';
            deleted_count = dc';
            deleted_capacity = dcap';
            index_list = update t.index_list x (idx + 1);
            entries =
                update t.entries idx
                  (record (t.entries idx) { key = key; value = v; cached_hash = keys.hash key });
          })
          idx
        ≡ some (record t {
          entry_next_insert = next';
          deleted_count = dc';
          deleted_capacity = dcap';
          index_list = update t.index_list x (idx + 1);
          entries = es';
          head_idx = head';
          tail_idx = idx;
        })
      → insert_new keys env t key v x
        ≡ some (record t {
          entry_next_insert = next';
          deleted_count = dc';
          deleted_capacity = dcap';
          count = t.count + 1;
          index_list = update t.index_list x (idx + 1);
          entries = es';
          head_idx = head';
          tail_idx = idx;
        })
  unfolding insert_new
  insert_new_run env t key v x next' dc' dcap' idx es' head' xl il small small' took linked =
      let t₁ : Table K = record t {
        entry_next_insert = next';
        deleted_count = dc';
        deleted_capacity = dcap';
      } in
      let t₂ : Table K = record t₁ { index_list = update t.index_list x (idx + 1) } in
      rw (
        took,
        small,
        set_index_lem keys t₁ x (idx + 1) xl,
        fill_entry_lem keys t₂ idx key v (keys.hash key) il,
        linked,
        small',
      )

  module _ (t : Table K) (key : K) (v x idx : ℕ) (is : List ℕ) (o : IsOrdered t is)
      (small : idx + 1 < uint32_max) (xl : x < t.index_capacity)
      (dead : is_live (t.index_list x) ≡ false) (out : ¬ (In idx is)) where
    cells : ℕ → ℕ
    cells = update t.index_list x (idx + 1)

    named_there :
        (y : ℕ)
        → In y (is ++ (idx ∷ []))
        → (j : ℕ) × (j < t.index_capacity) × (is_live (cells j) ≡ true) × (cells j - 1 ≡ y)
    unfolding cells In
    named_there y i = elim (In-append y is (idx ∷ []) i) [
      | inl h ↦
          let (j, jl, l, at) = o.named y h in
          let ne : x ≢ j = λ e. cc (dead, l, e) in
          (j, jl, (rw (ne→== x j ne) l), (rw (ne→== x j ne) at))
      | inr (inl e) ↦
          (x, xl, (rw (eq→== x x refl) (ground arith)), (rw (eq→== x x refl) (omega (arith, e))))
      | inr (inr b) ↦ absurd b
    ]

    all_there :
        (j : ℕ)
        → j < t.index_capacity
        → is_live (cells j) ≡ true
        → In (cells j - 1) (is ++ (idx ∷ []))
    unfolding cells In
    all_there j jl l = elim (eq_or_ne x j) [
      | inl e ↦ In-right (cells j - 1) is (idx ∷ []) (inl (rw (eq→== x j e) (omega arith)))
      | inr ne ↦ In-left (cells j - 1) is (idx ∷ []) (
          rw (ne→== x j ne) (
            o.all j jl
              (subst (λ (c : ℕ). is_live c ≡ true) (update_ne t.index_list x j (idx + 1) ne) l)))
    ]

    pairs_there :
        (es' : ℕ → Entry K)
        → SameData
            (update t.entries idx
              (record (t.entries idx) { key = key; value = v; cached_hash = keys.hash key }))
            es'
        → pairs es' (is ++ (idx ∷ [])) ≡ pairs t.entries is ++ ((key, v) ∷ [])
    unfolding pairs
    pairs_there es' same =
        let self : ((es' idx).key ≡ key) × ((es' idx).value ≡ v) = ground (arith, same idx) in
        let older = λ (y : ℕ) (i : In y is).
          let ne : idx ≢ y = λ e. out (subst (λ (z : ℕ). In z is) (sym e) i) in
          let kept : ((es' y).key ≡ (t.entries y).key) × ((es' y).value ≡ (t.entries y).value) =
            ground (arith, same y) in
          kept in
        pairs-append es' is (idx ∷ []) ∙ rw (pairs-same t.entries es' is older, self.0, self.1)

  -- A new entry goes to the end of the list.
  pub insert_new_order :
      (env : Alloc K) (t : Table K) (key : K) (v x : ℕ) (is : List ℕ)
      → IsValid keys t
      → IsOrdered t is
      → t.entry_next_insert < t.entry_capacity
      → x < t.index_capacity
      → is_live (t.index_list x) ≡ false
      → (t' : Table K) × (idx : ℕ) × (insert_new keys env t key v x ≡ some t')
        × IsOrdered t' (is ++ (idx ∷ []))
        × (pairs t'.entries (is ++ (idx ∷ [])) ≡ pairs t.entries is ++ ((key, v) ∷ []))
  unfolding cells
  insert_new_order env t key v x is valid o lt xl dead =
      let ix = valid.indexed in
      let (next', dc', dcap', idx, took, tk) = take_index_lem keys env t ix lt in
      let small = small_next keys ix in
      let fit : idx + 1 < 2 ^ 31 = omega (arith, tk.idx_in, tk.fits) in
      let inside : idx < t.entry_capacity = omega (arith, tk.idx_in, tk.fits) in
      let e₁ : Entry K = record (t.entries idx) {
        key = key;
        value = v;
        cached_hash = keys.hash key;
      } in
      let out : ¬ (In idx is) = λ i. let (j, jl, l, at) = o.named idx i in tk.unnamed j jl l at in
      let filled : IsListed t.entry_capacity t.head_idx t.tail_idx (update t.entries idx e₁) is =
        record {
          segment =
              Segment-same t.entries (update t.entries idx e₁) t.entry_capacity idx
                (λ y ne. rw (ne→== idx y (λ b. ne (sym b))) (refl, refl)) uint32_max t.head_idx is
                uint32_max t.tail_idx out o.listed.segment;
          distinct = o.listed.distinct;
        } in
      let (es', head', link, same, listed) =
        link_tail_order
          (record t {
            entry_next_insert = next';
            deleted_count = dc';
            deleted_capacity = dcap';
            index_list = update t.index_list x (idx + 1);
            entries = update t.entries idx e₁;
          })
          idx is filled out inside (omega arith) in
      (
        record t {
          entry_next_insert = next';
          deleted_count = dc';
          deleted_capacity = dcap';
          count = t.count + 1;
          index_list = update t.index_list x (idx + 1);
          entries = es';
          head_idx = head';
          tail_idx = idx;
        },
        idx,
        insert_new_run env t key v x next' dc' dcap' idx es' head' xl inside
            (mod-eq_of_lt {m = 2 ^ 32} (omega arith))
            (mod-eq_of_lt {m = 2 ^ 64} (
              omega (
                arith,
                valid.counted,
                live_count-le t.index_list t.index_capacity,
                ix.capacity.small,
              )))
            took link,
        record {
          listed = listed;
          named = named_there t key v x idx is o (omega arith) xl dead out;
          all = all_there t key v x idx is o (omega arith) xl dead out;
          counted = omega (arith, length_snoc is idx, o.counted);
        },
        pairs_there t key v x idx is o (omega arith) xl dead out es' same,
      )
