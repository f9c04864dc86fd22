-- ===== src/Htable/Client.antt =====
-- The table of src/hash/htable.c as a client sees it: a map from keys to values, which the
-- operations without flags read and change.
use freehttpd.Base.{
  ℕ, ◌*◌, ◌^◌, ◌≤◌, ◌<◌, ◌≡◌, refl, ◌∙◌, ap, Bool, true, false, some, if◌then◌else◌, ◌≢◌, inl, inr,
  Bool-cases,
}
use freehttpd.Htable.Table.{Keys, Table, Alloc}
use freehttpd.Htable.Ops.{create, set, get, delete}
use freehttpd.Htable.Valid.{IsValid}
use freehttpd.Htable.Laws.{IsAmple, set_with_flag_lem, delete_with_flag_lem}
use freehttpd.Htable.Create.{create_lem}
use freehttpd.Htable.History.{Map, store, Reads}

module _ {K : Type 0} (keys : Keys K) where
  -- A valid table that stands for a map; a key that is not there reads (0, false).
  pub record IsMap (t : Table K) (f : Map keys) : Type 0 where
    pub valid : IsValid keys t
    pub reads : Reads keys t f

  pub get-IsMap : (t : Table K) (f : Map keys) (k : K) → IsMap t f → get keys t k ≡ some (f k).0
  unfolding get
  get-IsMap t f k m = rw (m.reads k)

  -- what a store changes, and what it leaves
  pub store_self : (f : Map keys) (k : K) (r : ℕ × Bool) → store keys f k r k ≡ r
  store_self f k r = rw ((keys.equal_iff k k).1 refl)

  pub differs : (q k : K) → q ≢ k → keys.equal q k ≡ false
  differs q k ne = elim (Bool-cases (keys.equal q k)) [
    | inl y ↦ absurd (ne ((keys.equal_iff q k).0 y))
    | inr y ↦ y
  ]

  pub store-ne : (f : Map keys) (q k : K) (r : ℕ × Bool) → q ≢ k → store keys f k r q ≡ f q
  store-ne f q k r ne = rw (differs q k ne)

  inside : (b : Bool) (x y : ℕ × Bool) → (if b then some x else some y) ≡ some (if b then x else y)
  inside true x y = refl
  inside false x y = refl

  pub set-IsMap :
      (env : Alloc K) (t : Table K) (f : Map keys) (k : K) (v : ℕ)
      → IsMap t f
      → t.index_capacity * 2 ≤ 2 ^ 31
      → IsAmple env
      → (t' : Table K) × (set keys env t k v ≡ some (t', true))
        × IsMap t' (store keys f k (v, true))
        × (t'.index_capacity ≤ t.index_capacity * 2)
  unfolding set
  set-IsMap env t f k v m small ample =
      let (t', created, run, s) = set_with_flag_lem keys env t k v false m.valid small ample in
      (
        t',
        rw run,
        record {
          valid = s.valid;
          reads = λ q.
              s.reads q
              ∙ ap (λ o. if keys.equal q k then some (v, true) else o) (m.reads q)
              ∙ inside (keys.equal q k) (v, true) (f q);
        },
        s.bounded,
      )

  pub delete-IsMap :
      (env : Alloc K) (t : Table K) (f : Map keys) (k : K)
      → IsMap t f
      → IsAmple env
      → (t' : Table K) × (v : ℕ) × (delete keys env t k ≡ some (t', v))
        × IsMap t' (store keys f k (0, false))
        × (t'.index_capacity ≡ t.index_capacity)
  unfolding delete
  delete-IsMap env t f k m ample =
      let (t', v, found, got, run, d) =
        delete_with_flag_lem keys env t k m.valid ample.realloc_ok in
      (
        t',
        v,
        rw run,
        record {
          valid = d.valid;
          reads = λ q.
              d.reads q
              ∙ ap (λ o. if keys.equal q k then some (0, false) else o) (m.reads q)
              ∙ inside (keys.equal q k) (0, false) (f q);
        },
        d.same_index,
      )

  pub create-IsMap :
      (env : Alloc K) (n : ℕ)
      → 2 ≤ n
      → n ≤ 2 ^ 30
      → IsAmple env
      → (t : Table K) × (create true env n ≡ some (some t))
        × IsMap t (λ _. (0, false))
        × (t.index_capacity < 2 * n)
  create-IsMap env n lo hi ample =
      let (t, run, valid, reads, count, least, most) = create_lem keys env n lo hi ample in
      (t, run, record { valid = valid; reads = reads }, most)
