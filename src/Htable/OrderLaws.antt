-- ===== src/Htable/OrderLaws.antt =====
-- The order in which the loops over a table of src/hash/htable.c meet its keys and values: a new key
-- comes last, and the other keys stay in their order.
use mathlib.Core.Option.{some-injective}
use freehttpd.Base.{
  ℕ, ◌-◌, ◌<◌, ◌≡◌, refl, sym, ◌∙◌, ap, subst, inl, inr, Bool, true, false, List, [], ◌∷◌, ◌++◌,
  some, arith, lt→ltb, read_lem,
}
use freehttpd.Htable.Table.{Keys, Entry, Table, Alloc}
use freehttpd.Htable.Ops.{
  walk, has, set_with_flag, set_grown, delete_found, delete_with_flag, is_full,
}
use freehttpd.Htable.Live.{is_live}
use freehttpd.Htable.Index.{Maps, Absent}
use freehttpd.Htable.Valid.{IsIndexed, IsValid}
use freehttpd.Htable.Search.{search_lem}
use freehttpd.Htable.FindSlot.{find_slot_lem}
use freehttpd.Htable.Insert.{small_next}
use freehttpd.Htable.Set.{free_cell, set_grown-Absent}
use freehttpd.Htable.Delete.{reserve_lem, more_room, delete_lem}
use freehttpd.Htable.Get.{Maps-or_Absent}
use freehttpd.Htable.Laws.{has_room, has-Maps, has-Absent}
use freehttpd.Htable.Create.{new_table}
use freehttpd.Htable.History.{length}
use freehttpd.Htable.Order.{In, Distinct, In-split, Segment}
use freehttpd.Htable.OrderLinks.{pairs}
use freehttpd.Htable.Ordered.{IsOrdered, walk-IsOrdered, insert_new_order, pairs-append}
use freehttpd.Htable.OrderRemove.{remove_entry_order}

module _ {K : Type 0} (keys : Keys K) where
  -- a table without keys
  pub new_table-IsOrdered :
      (cap ecap : ℕ) (memory : ℕ → Entry K) → IsOrdered (new_table keys cap ecap memory) []
  unfolding Segment Distinct In length
  new_table-IsOrdered cap ecap memory = record {
    listed = record { segment = (refl, refl); distinct = tt };
    named = λ x i. absurd i;
    all = λ j jl l. absurd (ground (arith, l));
    counted = refl;
  }

  -- what a new key does to a table and to what its loops meet
  pub record IsAppended (t t' : Table K) (key : K) (v : ℕ) : Type 0 where
    pub valid : IsValid keys t'
    pub after : List ℕ
    pub ordered : IsOrdered t' after
    pub before : List (K × ℕ)
    pub met : walk t t.count t.head_idx ≡ some before
    pub meets : walk t' t'.count t'.head_idx ≡ some (before ++ ((key, v) ∷ []))

  set_grown_order :
      (env : Alloc K) (t : Table K) (key : K) (v : ℕ) (flag : Bool) (is : List ℕ)
      → IsValid keys t
      → IsOrdered t is
      → t.entry_next_insert < t.entry_capacity
      → env.dup_ok ≡ true
      → Absent keys t.index_capacity t.index_list t.entries key
      → (t' : Table K) × (set_grown keys env t key v flag ≡ some (t', true, true))
        × IsAppended t t' key v
  unfolding set_grown
  set_grown_order env t key v flag is valid o lt ok a =
      let x = valid.indexed in
      let (free, fl, dead) = free_cell keys t x lt in
      let (t'', run'', written, counted, icap, used) =
        set_grown-Absent keys env t key v flag valid lt ok a in
      elim (find_slot_lem keys t key x.capacity x.index x.in_use free fl dead) [
        | inl (j, run, jl, l, e) ↦ absurd (a j jl l e)
        | inr (c, run, cl, d, reach, a') ↦
            let (t', idx, ins, o', meets) =
              insert_new_order keys env t key v c is valid o lt cl d in
            let done : set_grown keys env t key v flag ≡ some (t', true, true) =
              rw (lt→ltb t.entry_next_insert t.entry_capacity lt, run) (simp (ok, ins)) in
            let same : t'' ≡ t' =
              ap (λ (r : Table K × Bool × Bool). r.0) (some-injective _ _ (sym run'' ∙ done)) in
            let valid' = subst (λ (u : Table K). IsValid keys u) same written.valid in
            (
              t',
              done,
              record {
                valid = valid';
                after = is ++ (idx ∷ []);
                ordered = o';
                before = pairs t.entries is;
                met = walk-IsOrdered t is (omega (arith, small_next keys x)) o;
                meets =
                    walk-IsOrdered t' (is ++ (idx ∷ []))
                      (omega (arith, small_next keys valid'.indexed)) o'
                    ∙ ap (λ r. some r) meets;
              },
            )
      ]

  -- a key that `htable_has` finds, or does not
  has_not :
      (t : Table K) (key : K)
      → IsIndexed keys t
      → has keys t key ≡ some false
      → Absent keys t.index_capacity t.index_list t.entries key
  has_not t key x h = elim (Maps-or_Absent keys t x key) [
    | inl (w, m) ↦ cc (some-injective _ _ (sym (has-Maps keys t x key w m) ∙ h))
    | inr a ↦ a
  ]

  has_it :
      (t : Table K) (key : K)
      → IsIndexed keys t
      → has keys t key ≡ some true
      → (v : ℕ) × Maps keys t.index_capacity t.index_list t.entries key v
  has_it t key x h = elim (Maps-or_Absent keys t x key) [
    | inl m ↦ m
    | inr a ↦ cc (some-injective _ _ (sym h ∙ has-Absent keys t x key a))
  ]

  -- On a valid table in order that is not full, setting a key that is not in it, when the key can be
  -- copied, succeeds; the loops over the new table meet what they met before and then the key with
  -- its value, and the new table is valid and in order.
  pub set_order :
      (env : Alloc K) (t : Table K) (key : K) (v : ℕ) (flag : Bool) (is : List ℕ)
      → IsValid keys t
      → IsOrdered t is
      → is_full t ≡ false
      → env.dup_ok ≡ true
      → has keys t key ≡ some false
      → (t' : Table K) × (set_with_flag keys env t key v flag ≡ some (t', true, true))
        × IsAppended t t' key v
  unfolding set_with_flag
  set_order env t key v flag is valid o room ok new =
      let a = has_not t key valid.indexed new in
      let (t', run, done) =
        set_grown_order env t key v flag is valid o (has_room keys t room) ok a in
      (t', (rw room run), done)

  -- what a deleted key does to a table and to what its loops meet
  pub record IsWithout (t t' : Table K) (key : K) (v : ℕ) : Type 0 where
    pub valid : IsValid keys t'
    pub after : List ℕ
    pub ordered : IsOrdered t' after
    pub before : List (K × ℕ)
    pub behind : List (K × ℕ)
    pub met : walk t t.count t.head_idx ≡ some (before ++ ((key, v) ∷ behind))
    pub meets : walk t' t'.count t'.head_idx ≡ some (before ++ behind)

  delete_found_order :
      (env : Alloc K) (t : Table K) (h : ℕ) (xs ys : List ℕ)
      → IsValid keys t
      → IsOrdered t (xs ++ ((t.index_list h - 1) ∷ ys))
      → env.realloc_ok ≡ true
      → h < t.index_capacity
      → is_live (t.index_list h) ≡ true
      → (t' : Table K) × (delete_found env t h (t.index_list h - 1)
          ≡ some (t', (t.entries (t.index_list h - 1)).value, true))
        × IsOrdered t' (xs ++ ys)
        × (pairs t'.entries (xs ++ ys) ≡ pairs t.entries xs ++ pairs t.entries ys)
  unfolding delete_found
  delete_found_order env t h xs ys valid o ok lt l =
      let ix = valid.indexed in
      let (cap', res, roomy) = reserve_lem keys env t valid ok in
      let t₁ : Table K = record t { deleted_capacity = cap' } in
      let o₁ : IsOrdered t₁ (xs ++ ((t.index_list h - 1) ∷ ys)) = record {
        listed = o.listed;
        named = o.named;
        all = o.all;
        counted = o.counted;
      } in
      let (t', run, o', same, ecap, val) =
        remove_entry_order keys t₁ h xs ys (more_room keys t cap' roomy valid) o₁ lt l roomy in
      let inside : t.index_list h - 1 < t'.entry_capacity =
        rw ecap (omega (arith, (ix.index.cells h lt l).in_use, ix.in_use)) in
      (
        t',
        (rw (
          res,
          delete_found,
          run,
          read_lem t'.entries t'.entry_capacity (t.index_list h - 1) inside,
          val,
        )),
        o',
        same,
      )

  -- On a valid table in order, deleting a key that is in it, when `realloc` succeeds, returns its
  -- value; the loops over the new table meet what they met before but the key, in the same order, and
  -- the new table is valid and in order.
  pub delete_order :
      (env : Alloc K) (t : Table K) (key : K) (is : List ℕ)
      → IsValid keys t
      → IsOrdered t is
      → env.realloc_ok ≡ true
      → has keys t key ≡ some true
      → (t' : Table K) × (v : ℕ) × (delete_with_flag keys env t key ≡ some (t', v, true))
        × IsWithout t t' key v
  unfolding delete_with_flag pairs
  delete_order env t key is valid o ok there =
      let x = valid.indexed in
      let (w, m) = has_it t key x there in
      let (t'', run'', removed, counted, icap, used) = delete_lem keys env t key w valid ok m in
      elim (search_lem keys t key x.capacity x.index x.in_use) [
        | inr (run, a) ↦ absurd (a m.cell m.inside m.live m.has_key)
        | inl (j, run, lt, l, e) ↦
            let idx = t.index_list j - 1 in
            let v = (t.entries idx).value in
            let (xs, ys, split) = In-split idx is (o.all j lt l) in
            let o₁ : IsOrdered t (xs ++ (idx ∷ ys)) =
              subst (λ (r : List ℕ). IsOrdered t r) split o in
            let (t', del, o', meets) = delete_found_order env t j xs ys valid o₁ ok lt l in
            let done : delete_with_flag keys env t key ≡ some (t', v, true) = rw (run, del) in
            let same : t'' ≡ t' =
              ap (λ (r : Table K × ℕ × Bool). r.0) (some-injective _ _ (sym run'' ∙ done)) in
            let valid' = subst (λ (u : Table K). IsValid keys u) same removed.valid in
            (
              t',
              v,
              done,
              record {
                valid = valid';
                after = xs ++ ys;
                ordered = o';
                before = pairs t.entries xs;
                behind = pairs t.entries ys;
                met =
                    walk-IsOrdered t (xs ++ (idx ∷ ys)) (omega (arith, small_next keys x)) o₁
                    ∙ ap (λ r. some r)
                        (pairs-append t.entries xs (idx ∷ ys)
                          ∙ ap (λ (k : K). pairs t.entries xs ++ ((k, v) ∷ pairs t.entries ys)) e);
                meets =
                    walk-IsOrdered t' (xs ++ ys) (omega (arith, small_next keys valid'.indexed)) o'
                    ∙ ap (λ r. some r) meets;
              },
            )
      ]
