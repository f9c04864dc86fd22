-- ===== src/Htable/OrderRemove.antt =====
-- `htable_delete_with_flag` of src/hash/htable.c and the order of the entry list.
use native.Mathlib.Nat.{mod-eq_of_lt}
use freehttpd.Base.{
  ℕ, ◌+◌, ◌-◌, ◌^◌, ◌<◌, ◌≡◌, ◌≢◌, refl, sym, ◌∙◌, ap, subst, inl, inr, true, List, ◌∷◌, ◌++◌, some,
  arith, eq_or_ne, update, update_ne, ne→==, write_lem, u64,
}
use freehttpd.Htable.Table.{Keys, Entry, Table, deleted}
use freehttpd.Htable.Ops.{unlink, remove_entry}
use freehttpd.Htable.Live.{is_live, live_count-le, live_count-update}
use freehttpd.Htable.Valid.{IsValid}
use freehttpd.Htable.Insert.{small_next, set_index_lem}
use freehttpd.Htable.Order.{In, In-rest, In-back, Distinct-middle}
use freehttpd.Htable.OrderLinks.{pairs}
use freehttpd.Htable.OrderUnlink.{unlink_order}
use freehttpd.Htable.Ordered.{IsOrdered, pairs-append, pairs-same, length_middle}

module _ {K : Type 0} (keys : Keys K) where
  -- the calls of `remove_entry`, one by one
  remove_entry_run :
      (t : Table K) (h idx : ℕ) (es' : ℕ → Entry K) (head' tail' : ℕ)
      → h < t.index_capacity
      → t.deleted_count < t.deleted_capacity
      → u64 (t.deleted_count + 1) ≡ t.deleted_count + 1
      → u64 (t.count + (2 ^ 64 - 1)) ≡ t.count - 1
      → unlink
          (record t {
            deleted_index_list = update t.deleted_index_list t.deleted_count idx;
            deleted_count = t.deleted_count + 1;
          })
          idx
        ≡ some (record t {
          deleted_index_list = update t.deleted_index_list t.deleted_count idx;
          deleted_count = t.deleted_count + 1;
          entries = es';
          head_idx = head';
          tail_idx = tail';
        })
      → remove_entry t h idx
        ≡ some (record t {
          deleted_index_list = update t.deleted_index_list t.deleted_count idx;
          deleted_count = t.deleted_count + 1;
          entries = es';
          head_idx = head';
          tail_idx = tail';
          index_list = update t.index_list h deleted;
          count = t.count - 1;
        })
  unfolding remove_entry
  remove_entry_run t h idx es' head' tail' hl roomy dc64 count64 run =
      let t₁ : Table K = record t {
        deleted_index_list = update t.deleted_index_list t.deleted_count idx;
        deleted_count = t.deleted_count + 1;
      } in
      rw (
        write_lem t.deleted_index_list t.deleted_capacity t.deleted_count idx roomy,
        dc64,
        run,
        set_index_lem keys (record t₁ { entries = es'; head_idx = head'; tail_idx = tail' }) h
            deleted hl,
        count64,
      )

  module _ (t : Table K) (h : ℕ) (xs ys : List ℕ) (valid : IsValid keys t)
      (o : IsOrdered t (xs ++ ((t.index_list h - 1) ∷ ys))) (hl : h < t.index_capacity)
      (live : is_live (t.index_list h) ≡ true) where
    idx : ℕ
    idx = t.index_list h - 1

    cells : ℕ → ℕ
    cells = update t.index_list h deleted

    out : ¬ (In idx (xs ++ ys))
    unfolding idx
    out = (Distinct-middle xs (t.index_list h - 1) ys o.listed.distinct).1

    named_there :
        (y : ℕ)
        → In y (xs ++ ys)
        → (j : ℕ) × (j < t.index_capacity) × (is_live (cells j) ≡ true) × (cells j - 1 ≡ y)
    unfolding cells idx
    named_there y i =
        let (j, jl, l, at) = o.named y (In-back y (t.index_list h - 1) xs ys i) in
        let ne : h ≢ j = λ e. out (
          subst (λ (z : ℕ). In z (xs ++ ys)) (sym at ∙ ap (λ (k : ℕ). t.index_list k - 1) (sym e))
            i) in
        (j, jl, (rw (ne→== h j ne) l), (rw (ne→== h j ne) at))

    all_there :
        (j : ℕ) → j < t.index_capacity → is_live (cells j) ≡ true → In (cells j - 1) (xs ++ ys)
    unfolding cells
    all_there j jl l = elim (eq_or_ne h j) [
      | inl e ↦ absurd (ground (arith, e, l))
      | inr ne ↦
          let l' = subst (λ (c : ℕ). is_live c ≡ true) (update_ne t.index_list h j deleted ne) l in
          let apart : t.index_list j - 1 ≢ t.index_list h - 1 = λ e. ne (
            sym (
              valid.indexed.index.distinct j h jl hl l' live
                (ap (λ (k : ℕ). (t.entries k).key) e))) in
          rw (ne→== h j ne)
            (In-rest (t.index_list j - 1) (t.index_list h - 1) xs ys apart (o.all j jl l'))
    ]

  -- The entry of a live cell leaves the list, and the others keep their order.
  pub remove_entry_order :
      (t : Table K) (h : ℕ) (xs ys : List ℕ)
      → IsValid keys t
      → IsOrdered t (xs ++ ((t.index_list h - 1) ∷ ys))
      → h < t.index_capacity
      → is_live (t.index_list h) ≡ true
      → t.deleted_count < t.deleted_capacity
      → (t' : Table K) × (remove_entry t h (t.index_list h - 1) ≡ some t')
        × IsOrdered t' (xs ++ ys)
        × (pairs t'.entries (xs ++ ys) ≡ pairs t.entries xs ++ pairs t.entries ys)
        × (t'.entry_capacity ≡ t.entry_capacity)
        × ((t'.entries (t.index_list h - 1)).value ≡ (t.entries (t.index_list h - 1)).value)
  unfolding cells
  remove_entry_order t h xs ys valid o hl live roomy =
      let ix = valid.indexed in
      let small = small_next keys ix in
      let x = t.index_list h - 1 in
      let full : 0 < t.count =
        ground
          (arith, live_count-update t.index_list t.index_capacity h deleted hl, valid.counted) in
      let count_small = live_count-le t.index_list t.index_capacity in
      let (es', head', tail', run, same, listed) =
        unlink_order
          (record t {
            deleted_index_list = update t.deleted_index_list t.deleted_count x;
            deleted_count = t.deleted_count + 1;
          })
          x xs ys (omega arith) o.listed in
      (
        record t {
          deleted_index_list = update t.deleted_index_list t.deleted_count x;
          deleted_count = t.deleted_count + 1;
          entries = es';
          head_idx = head';
          tail_idx = tail';
          index_list = update t.index_list h deleted;
          count = t.count - 1;
        },
        remove_entry_run t h x es' head' tail' hl roomy
            (mod-eq_of_lt {m = 2 ^ 64} (omega (arith, ix.total, ix.in_use)))
            (omega (arith, ix.capacity.small, valid.counted)) run,
        record {
          listed = listed;
          named = named_there t h xs ys valid o hl live;
          all = all_there t h xs ys valid o hl live;
          counted = omega (arith, length_middle xs x ys, o.counted);
        },
        pairs-same t.entries es' (xs ++ ys) (λ y i. let s = same y in (s.0, s.2))
            ∙ pairs-append t.entries xs ys,
        refl,
        (same x).2,
      )
