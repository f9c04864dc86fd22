-- ===== src/Htable/Links.antt =====
-- `link_tail` and `unlink` write links only, and links that are entries in use.
use freehttpd.Base.{
  ℕ, ◌≤◌, ◌<◌, ◌≡◌, ◌≢◌, ap, ◌∙◌, inl, inr, Option, some, ◌==◌, if◌then◌else◌, arith, eq_or_ne,
  read_lem, write_lem, update, ◌>>=◌, eq→==, ne→==,
}
use freehttpd.Htable.Table.{Entry, Table, uint32_max, set_prev, set_next, link_tail}
use freehttpd.Htable.Ops.{unlink}
use freehttpd.Htable.Valid.{IsLink, IsLinked}

module _ {K : Type 0} where
  -- the same keys, values and hashes at the same places
  abbrev pub SameData : (ℕ → Entry K) → (ℕ → Entry K) → Type 0
  SameData es es' =
      (i : ℕ)
      → ((es' i).key ≡ (es i).key)
        × ((es' i).cached_hash ≡ (es i).cached_hash)
        × ((es' i).value ≡ (es i).value)

  abbrev pub with_prev : (ℕ → Entry K) → ℕ → ℕ → ℕ → Entry K
  with_prev es i v = update es i (record (es i) { prev_idx = v })

  abbrev pub with_next : (ℕ → Entry K) → ℕ → ℕ → ℕ → Entry K
  with_next es i v = update es i (record (es i) { next_idx = v })

  pub set_prev_lem :
      (t : Table K) (i v : ℕ)
      → i < t.entry_capacity
      → set_prev t i v ≡ some (record t { entries = with_prev t.entries i v })
  unfolding set_prev
  set_prev_lem t i v lt = rw (write_lem t.entries t.entry_capacity i _ lt)

  pub set_next_lem :
      (t : Table K) (i v : ℕ)
      → i < t.entry_capacity
      → set_next t i v ≡ some (record t { entries = with_next t.entries i v })
  unfolding set_next
  set_next_lem t i v lt = rw (write_lem t.entries t.entry_capacity i _ lt)

  -- the entries after `link_tail`
  appended : Table K → ℕ → ℕ → Entry K
  appended t idx =
      if t.tail_idx == uint32_max
      then with_prev (with_next t.entries idx uint32_max) idx uint32_max
      else with_next (with_prev (with_next t.entries t.tail_idx idx) idx t.tail_idx) idx uint32_max

  -- what `link_tail` does on an empty list, and on one with a last entry
  pub link_tail_first :
      (t : Table K) (idx : ℕ)
      → idx < t.entry_capacity
      → t.tail_idx ≡ uint32_max
      → link_tail t idx
        ≡ some (record t {
          entries = with_prev (with_next t.entries idx uint32_max) idx uint32_max;
          head_idx = idx;
          tail_idx = idx;
        })
  unfolding link_tail
  link_tail_first t idx lt e =
      rw (eq→== _ _ e, set_next_lem t idx uint32_max lt) (set_prev_lem _ idx uint32_max lt)

  pub link_tail_more :
      (t : Table K) (idx : ℕ)
      → idx < t.entry_capacity
      → t.tail_idx ≢ uint32_max
      → t.tail_idx < t.entry_capacity
      → link_tail t idx
        ≡ some (record t {
          entries =
              with_next
                (with_prev (with_next t.entries t.tail_idx idx) idx t.tail_idx)
                idx
                uint32_max;
          tail_idx = idx;
        })
  unfolding link_tail
  link_tail_more t idx lt ne tl =
      rw
        (
          ne→== t.tail_idx uint32_max ne,
          set_next_lem t t.tail_idx idx tl,
          set_prev_lem (record t { entries = with_next t.entries t.tail_idx idx }) idx t.tail_idx
              lt,
        )
        (ap (λ (o : Option (Table K)). o >>= λ t₃. some (record t₃ { tail_idx = idx }))
          (set_next_lem
            (record t { entries = with_prev (with_next t.entries t.tail_idx idx) idx t.tail_idx })
            idx uint32_max lt))

  -- The entry goes to the end of the list, and no key, value or hash changes.
  pub link_tail_lem :
      (t : Table K) (idx : ℕ)
      → idx < t.entry_next_insert
      → t.entry_next_insert ≤ t.entry_capacity
      → IsLink t.entry_next_insert t.head_idx
      → IsLink t.entry_next_insert t.tail_idx
      → ((i : ℕ)
          → i < t.entry_next_insert
          → i ≢ idx
          → IsLink t.entry_next_insert (t.entries i).prev_idx
            × IsLink t.entry_next_insert (t.entries i).next_idx)
      → (es' : ℕ → Entry K) × (head' : ℕ) × (link_tail t idx
          ≡ some (record t { entries = es'; head_idx = head'; tail_idx = idx }))
        × SameData t.entries es'
        × IsLinked t.entry_next_insert head' idx es'
  unfolding appended
  link_tail_lem t idx lt fits hl tl l = elim (eq_or_ne t.tail_idx uint32_max) [
    | inl e ↦ (
      appended t idx,
      idx,
      link_tail_first t idx (omega arith) e ∙ rw (eq→== t.tail_idx uint32_max e),
      λ i. ground arith,
      record {
        head_in = inr lt;
        tail_in = inr lt;
        prev_in = λ i h. ground (arith, l i h);
        next_in = λ i h. ground (arith, l i h);
      },
    )
    | inr ne ↦ (
      appended t idx,
      t.head_idx,
      link_tail_more t idx (omega arith) ne (ground (arith, tl))
          ∙ rw (ne→== t.tail_idx uint32_max ne),
      λ i. ground arith,
      record {
        head_in = hl;
        tail_in = inr lt;
        prev_in = λ i h. ground (arith, l i h, tl);
        next_in = λ i h. ground (arith, l i h);
      },
    )
  ]

  abbrev pub unlinked_head : Table K → ℕ → ℕ
  unlinked_head t idx = if idx == t.head_idx then (t.entries idx).next_idx else t.head_idx

  abbrev pub unlinked_tail : Table K → ℕ → ℕ
  unlinked_tail t idx = if idx == t.tail_idx then (t.entries idx).prev_idx else t.tail_idx

  -- the entries after the first and after the second write of `unlink`
  abbrev pub skip_back : (ℕ → Entry K) → ℕ → ℕ → Entry K
  skip_back es idx =
      if (es idx).next_idx == uint32_max
      then es
      else with_prev es (es idx).next_idx (es idx).prev_idx

  abbrev pub skip : (ℕ → Entry K) → ℕ → ℕ → Entry K
  skip es idx =
      if (es idx).prev_idx == uint32_max
      then skip_back es idx
      else with_next (skip_back es idx) (es idx).prev_idx (es idx).next_idx

  pub unlink_run :
      (t : Table K) (idx : ℕ)
      → idx < t.entry_capacity
      → ((t.entries idx).next_idx ≢ uint32_max → (t.entries idx).next_idx < t.entry_capacity)
      → ((t.entries idx).prev_idx ≢ uint32_max → (t.entries idx).prev_idx < t.entry_capacity)
      → unlink t idx
        ≡ some (record t {
          entries = skip t.entries idx;
          head_idx = unlinked_head t idx;
          tail_idx = unlinked_tail t idx;
        })
  unfolding unlink
  unlink_run t idx lt nl pl = elim (eq_or_ne (t.entries idx).next_idx uint32_max) [
    | inl e ↦ elim (eq_or_ne (t.entries idx).prev_idx uint32_max) [
      | inl f ↦ rw (read_lem t.entries t.entry_capacity idx lt, eq→== _ _ e, eq→== _ _ f)
      | inr f ↦
          rw (read_lem t.entries t.entry_capacity idx lt, eq→== _ _ e, ne→== _ _ f)
            (set_next_lem _ (t.entries idx).prev_idx (t.entries idx).next_idx (pl f))
    ]
    | inr e ↦ elim (eq_or_ne (t.entries idx).prev_idx uint32_max) [
      | inl f ↦ rw (
        read_lem t.entries t.entry_capacity idx lt,
        ne→== _ _ e,
        set_prev_lem (record t { head_idx = unlinked_head t idx; tail_idx = unlinked_tail t idx })
            (t.entries idx).next_idx (t.entries idx).prev_idx (nl e),
        eq→== _ _ f,
      )
      | inr f ↦
          rw
            (
              read_lem t.entries t.entry_capacity idx lt,
              ne→== _ _ e,
              set_prev_lem
                  (record t { head_idx = unlinked_head t idx; tail_idx = unlinked_tail t idx })
                  (t.entries idx).next_idx (t.entries idx).prev_idx (nl e),
              ne→== _ _ f,
            )
            (set_next_lem _ (t.entries idx).prev_idx (t.entries idx).next_idx (pl f))
    ]
  ]

  -- The entry leaves the list, and no key, value or hash changes.
  pub unlink_lem :
      (t : Table K) (idx : ℕ)
      → idx < t.entry_next_insert
      → t.entry_next_insert ≤ t.entry_capacity
      → IsLinked t.entry_next_insert t.head_idx t.tail_idx t.entries
      → (es' : ℕ → Entry K) × (head' : ℕ) × (tail' : ℕ) × (unlink t idx
          ≡ some (record t { entries = es'; head_idx = head'; tail_idx = tail' }))
        × SameData t.entries es'
        × IsLinked t.entry_next_insert head' tail' es'
  unlink_lem t idx lt fits l = (
    skip t.entries idx,
    unlinked_head t idx,
    unlinked_tail t idx,
    unlink_run t idx (omega arith) (λ ne. ground (arith, l.next_in idx lt))
        (λ ne. ground (arith, l.prev_in idx lt)),
    λ i. ground arith,
    record {
      head_in = ground (arith, l.next_in idx lt, l.head_in);
      tail_in = ground (arith, l.prev_in idx lt, l.tail_in);
      prev_in = λ i h. ground (arith, l.prev_in i h, l.prev_in idx lt);
      next_in = λ i h. ground (arith, l.next_in i h, l.next_in idx lt);
    },
  )
