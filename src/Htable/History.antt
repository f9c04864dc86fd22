-- ===== src/Htable/History.antt =====
-- A table under any sequence of calls, against a function from keys to values.
use freehttpd.Base.{
  ℕ, suc, ◌+◌, ◌*◌, ◌^◌, ◌≤◌, ◌≡◌, refl, sym, ◌∙◌, ap, Bool, true, false, not, Option, some, List,
  [], ◌∷◌, if◌then◌else◌, arith, ◌>>=◌,
}
use mathlib.Core.Option.{some-injective}
use freehttpd.Htable.Table.{Keys, Table, Alloc}
use freehttpd.Htable.Ops.{is_full, set_with_flag, get_with_flag, delete_with_flag, has}
use freehttpd.Htable.Valid.{IsValid}
use freehttpd.Htable.Laws.{IsAmple, set_if_lem, full_index, delete_with_flag_lem}

-- a client's calls
pub data Call (K : Type 0) : Type 0 where
  put : K → ℕ → Call K
  look : K → Call K
  drop : K → Call K

-- what a call returns: the result and `*flag_created`, or the value and `*flag`
pub data Reply : Type 0 where
  stored : Bool → Bool → Reply
  value : ℕ → Bool → Reply

unfoldable pub length {ℓ} : {A : Type ℓ} → List A → ℕ
length [] = 0
length (_ ∷ xs) = suc (length xs)

module _ {K : Type 0} (keys : Keys K) where
  -- one call on the table, in a memory
  unfoldable pub call : Alloc K → Call K → Table K → Option (Table K × Reply)
  call env (put k v) t = set_with_flag keys env t k v false >>= λ r. some (r.0, stored r.1 r.2)
  call env (look k) t = get_with_flag keys t k >>= λ r. some (t, value r.0 r.1)
  call env (drop k) t = delete_with_flag keys env t k >>= λ r. some (r.0, value r.1 r.2)

  unfoldable pub calls : List (Alloc K × Call K) → Table K → Option (List Reply)
  unfolding call
  calls [] t = some []
  calls ((env, c) ∷ cs) t = call env c t >>= λ r. calls cs r.0 >>= λ rs. some (r.1 ∷ rs)

  -- The same calls on a function: a key that is not in the map reads (0, false).
  abbrev pub Map : Type 0
  Map = K → ℕ × Bool

  abbrev pub store : Map → K → ℕ × Bool → Map
  store f k r q = if keys.equal q k then r else f q

  unfoldable pub spec_call : Call K → Map → Map × Reply
  spec_call (put k v) f = (store f k (v, true), stored true (not (f k).1))
  spec_call (look k) f = (f, value (f k).0 (f k).1)
  spec_call (drop k) f = (store f k (0, false), value (f k).0 (f k).1)

  unfoldable pub spec_calls : List (Alloc K × Call K) → Map → List Reply
  spec_calls [] f = []
  spec_calls ((_, c) ∷ cs) f = let (f', reply) = spec_call c f in reply ∷ spec_calls cs f'

  -- how many of the calls are `htable_set_with_flag`
  unfoldable pub puts : List (Alloc K × Call K) → ℕ
  puts [] = 0
  puts ((_, put _ _) ∷ cs) = puts cs + 1
  puts ((_, look _) ∷ cs) = puts cs
  puts ((_, drop _) ∷ cs) = puts cs

  abbrev pub AllAmple : List (Alloc K × Call K) → Type 0
  AllAmple [] = Unit {0}
  AllAmple ((env, _) ∷ cs) = IsAmple env × AllAmple cs

  -- the map that a table stands for
  abbrev pub Reads : Table K → Map → Type 0
  Reads t f = (q : K) → get_with_flag keys t q ≡ some (f q)

  -- `m` and `n` puts are left before and after the call
  record Refines (t : Table K) (m n : ℕ) (r : Table K × Reply) (s : Map × Reply) : Type 0 where
    valid : IsValid keys r.0
    reads : Reads r.0 s.0
    reply : r.1 ≡ s.1
    used : r.0.entry_next_insert + n ≤ t.entry_next_insert + m

  has-Reads : (t : Table K) (f : Map) (k : K) → Reads t f → has keys t k ≡ some (f k).1
  unfolding has
  has-Reads t f k h = rw (h k)

  flip_flag : (a b : Bool) → not a ≡ b → a ≡ not b
  flip_flag a b e = ground arith

  inside : (b : Bool) (x y : ℕ × Bool) → (if b then some x else some y) ≡ some (if b then x else y)
  inside true x y = refl
  inside false x y = refl

  -- an index that has to double may do so
  may_grow :
      (t : Table K)
      → IsValid keys t
      → 8 * (t.entry_next_insert + 1) ≤ 3 * 2 ^ 31
      → is_full t ≡ true
      → t.index_capacity * 2 ≤ 2 ^ 31
  may_grow t valid small full = let most = full_index keys t valid full in omega arith

  call_lem :
      (env : Alloc K) (c : Call K) (cs : List (Alloc K × Call K)) (t : Table K) (f : Map)
      → IsValid keys t
      → Reads t f
      → 8 * (t.entry_next_insert + puts ((env, c) ∷ cs)) ≤ 3 * 2 ^ 31
      → IsAmple env
      → (r : Table K × Reply) × (call env c t ≡ some r)
        × Refines t (puts ((env, c) ∷ cs)) (puts cs) r (spec_call c f)
  unfolding call spec_call puts
  call_lem env (put k v) cs t f valid h small ample =
      let (t', created, run, s) =
        set_if_lem keys env t k v false valid (may_grow t valid (omega arith)) ample in
      let same : created ≡ not (f k).1 =
        flip_flag created (f k).1 (cc (sym s.is_new ∙ has-Reads t f k h)) in
      (
        (t', stored true created),
        rw run,
        record {
          valid = s.valid;
          reads = λ q.
              s.reads q
              ∙ ap (λ o. if keys.equal q k then some (v, true) else o) (h q)
              ∙ inside (keys.equal q k) (v, true) (f q);
          reply = ap (stored true) same;
          used = let used = s.used in omega arith;
        },
      )
  call_lem env (look k) cs t f valid h small ample = (
    (t, value (f k).0 (f k).1),
    rw (h k),
    record { valid = valid; reads = h; reply = refl; used = omega arith },
  )
  call_lem env (drop k) cs t f valid h small ample =
      let (t', v, found, got, run, d) = delete_with_flag_lem keys env t k valid ample.realloc_ok in
      let same : ◌≡◌ {A = ℕ × Bool} (v, found) (f k) = some-injective _ _ (sym got ∙ h k) in
      (
        (t', value v found),
        rw run,
        record {
          valid = d.valid;
          reads = λ q.
              d.reads q
              ∙ ap (λ o. if keys.equal q k then some (0, false) else o) (h q)
              ∙ inside (keys.equal q k) (0, false) (f q);
          reply = ap (λ (r : ℕ × Bool). value r.0 r.1) same;
          used = let used = d.same_used in omega arith;
        },
      )

  -- Any sequence of `htable_set_with_flag`, `htable_get_with_flag` and `htable_delete_with_flag`, of
  -- any length, on a valid table that stands for the map `f`, when all allocations succeed and the
  -- entries in use and the calls of `htable_set_with_flag` together are at most 3/8 of 2^31 (about 805
  -- million): no call faults, and all replies are those of the map.
  pub calls_refine :
      (cs : List (Alloc K × Call K)) (t : Table K) (f : Map)
      → IsValid keys t
      → Reads t f
      → 8 * (t.entry_next_insert + puts cs) ≤ 3 * 2 ^ 31
      → AllAmple cs
      → calls cs t ≡ some (spec_calls cs f)
  unfolding calls spec_calls
  calls_refine [] t f valid h small ample = refl
  calls_refine ((env, c) ∷ cs) t f valid h small ample =
      let (r, run, ref) = call_lem env c cs t f valid h small ample.0 in
      let next : 8 * (r.0.entry_next_insert + puts cs) ≤ 3 * 2 ^ 31 =
        let used = ref.used in omega arith in
      rw (run, calls_refine cs r.0 (spec_call c f).0 ref.valid ref.reads next ample.1, ref.reply)
