-- ===== src/Htable/Move.antt =====
-- One entry that `htable_rehash` moves to the new arrays.
use native.Mathlib.Nat.{mod-eq_of_lt}
use freehttpd.Base.{
  ℕ, ◌+◌, ◌^◌, ◌<◌, ◌≡◌, ◌≢◌, refl, subst, false, some, arith, lt→ltb, write_lem, update, u32,
}
use freehttpd.Htable.Table.{Keys, Entry, Table, empty, masked, link_tail}
use freehttpd.Htable.Cycle.{masked-lt}
use freehttpd.Htable.Live.{is_live, live_count, find_dead}
use freehttpd.Htable.Index.{Reaches, Maps, Absent}
use freehttpd.Htable.Rehash.{move_entry}
use freehttpd.Htable.Probe.{find_empty}
use freehttpd.Htable.Valid.{IsLinked, IsIndexed, IsValid}
use freehttpd.Htable.Links.{SameData, link_tail_lem}
use freehttpd.Htable.Insert.{
  Keeps, IsWritten, Taken, small_next, set_index_lem, inserted-IsWritten, raise, other_links,
}
use freehttpd.Htable.FindEmpty.{find_empty_lem}

module _ {K : Type 0} (keys : Keys K) where
  -- A table under construction: no cell is deleted, and no entry is.
  pub record IsBuilt (b : Table K) : Type 0 where
    pub indexed : IsIndexed keys b
    pub no_deleted : b.deleted_count ≡ 0
    pub clean :
        (j : ℕ) → j < b.index_capacity → is_live (b.index_list j) ≡ false → b.index_list j ≡ empty

  pub with_count :
      (t : Table K) (c : ℕ) → IsIndexed keys t → IsIndexed keys (record t { count = c })
  with_count t c x = record {
    capacity = x.capacity;
    entry_cap = x.entry_cap;
    in_use = x.in_use;
    index = x.index;
    linked = x.linked;
    stack = record {
      room = x.stack.room;
      inside = x.stack.inside;
      unnamed = x.stack.unnamed;
      once = x.stack.once;
    };
    total = x.total;
  }

  module _ (e : Entry K) (b : Table K) (built : IsBuilt b)
      (lt : b.entry_next_insert < b.entry_capacity) where
    x : IsIndexed keys b
    x = built.indexed

    abbrev counted : Table K
    counted = record b { count = live_count b.index_list b.index_capacity }

    counted-IsValid : IsValid keys counted
    counted-IsValid = record {
      indexed = with_count b (live_count b.index_list b.index_capacity) x;
      counted = refl;
    }

    -- the next place is taken
    taken :
        Taken keys counted
          (b.entry_next_insert + 1)
          b.deleted_count
          b.deleted_capacity
          b.entry_next_insert
    taken = record {
      idx_in = omega arith;
      le = omega arith;
      fits = omega arith;
      room = x.stack.room;
      fewer = omega arith;
      rest = λ i h ne. omega arith;
      apart = λ n h. absurd (omega (arith, built.no_deleted));
      unnamed = λ j jl l. omega (arith, (x.index.cells j jl l).in_use);
      sum = omega (arith, x.total);
    }

    -- the new arrays with the entry, before its links are written
    abbrev copied : Table K
    copied = record b {
      entries = update b.entries b.entry_next_insert e;
      entry_next_insert = b.entry_next_insert + 1;
    }

    copied-IsLinked :
        (es' : ℕ → Entry K) × (head' : ℕ) × (link_tail copied b.entry_next_insert
          ≡ some
              (record copied { entries = es'; head_idx = head'; tail_idx = b.entry_next_insert }))
        × SameData (update b.entries b.entry_next_insert e) es'
        × IsLinked (b.entry_next_insert + 1) head' b.entry_next_insert es'
    copied-IsLinked =
        link_tail_lem copied b.entry_next_insert (omega arith) (omega arith)
          (raise keys taken.le x.linked.head_in) (raise keys taken.le x.linked.tail_in)
          (other_links keys counted-IsValid.indexed b.entry_next_insert (b.entry_next_insert + 1)
            taken e)

    module _ (hashed : e.cached_hash ≡ keys.hash e.key)
        (a : Absent keys b.index_capacity b.index_list b.entries e.key) (es' : ℕ → Entry K)
        (head' : ℕ) (same : SameData (update b.entries b.entry_next_insert e) es')
        (linked : IsLinked (b.entry_next_insert + 1) head' b.entry_next_insert es') (cell : ℕ)
        (cl : cell < b.index_capacity) (vacant : b.index_list cell ≡ empty)
        (reach : Reaches b.index_capacity b.index_list
          (masked b.index_capacity (keys.hash e.key))
          cell) where
      dead : is_live (b.index_list cell) ≡ false
      dead = rw vacant

      same_fields :
          SameData
            (update b.entries b.entry_next_insert (record (b.entries b.entry_next_insert) {
              key = e.key;
              value = e.value;
              cached_hash = keys.hash e.key;
            }))
            es'
      same_fields i = ground (arith, same i, hashed)

      abbrev moved : Table K
      moved = record copied {
        entries = es';
        head_idx = head';
        tail_idx = b.entry_next_insert;
        index_list = update b.index_list cell (b.entry_next_insert + 1);
      }

      moved-IsWritten :
          IsWritten keys counted
            (record moved { count = live_count b.index_list b.index_capacity + 1 })
            e.key
            e.value
      moved-IsWritten =
          inserted-IsWritten keys counted e.key e.value cell counted-IsValid cl dead reach a
            (b.entry_next_insert + 1) b.deleted_count b.deleted_capacity b.entry_next_insert taken
            es' head' same_fields linked

      clean_moved :
          (j : ℕ)
          → j < b.index_capacity
          → is_live (update b.index_list cell (b.entry_next_insert + 1) j) ≡ false
          → update b.index_list cell (b.entry_next_insert + 1) j ≡ empty
      clean_moved j jl d = ground (arith, built.clean j jl, small_next keys x)

      moved-IsBuilt : IsBuilt moved
      moved-IsBuilt = record {
        indexed =
            with_count (record moved { count = live_count b.index_list b.index_capacity + 1 })
              b.count moved-IsWritten.valid.indexed;
        no_deleted = built.no_deleted;
        clean = clean_moved;
      }

  -- The entry is copied, its key is mapped to its value, and nothing else changes.
  pub record IsMoved (e : Entry K) (b b' : Table K) : Type 0 where
    pub built : IsBuilt b'
    pub one_more : b'.entry_next_insert ≡ b.entry_next_insert + 1
    pub self : Maps keys b'.index_capacity b'.index_list b'.entries e.key e.value
    pub others : (q : K) → q ≢ e.key → Keeps keys b b' q
    pub same_index : b'.index_capacity ≡ b.index_capacity
    pub same_entries : b'.entry_capacity ≡ b.entry_capacity
    pub same_count : b'.count ≡ b.count

  -- the steps of `move_entry`, from those of its parts
  move_run :
      (e : Entry K) (b : Table K) (es' : ℕ → Entry K) (head' cell : ℕ)
      → b.entry_next_insert < b.entry_capacity
      → u32 (b.entry_next_insert + 1) ≡ b.entry_next_insert + 1
      → link_tail
          (record b {
            entries = update b.entries b.entry_next_insert e;
            entry_next_insert = b.entry_next_insert + 1;
          })
          b.entry_next_insert
        ≡ some (record b {
          entries = es';
          entry_next_insert = b.entry_next_insert + 1;
          head_idx = head';
          tail_idx = b.entry_next_insert;
        })
      → find_empty
          (record b {
            entries = es';
            entry_next_insert = b.entry_next_insert + 1;
            head_idx = head';
            tail_idx = b.entry_next_insert;
          })
          b.index_capacity
          (masked b.index_capacity e.cached_hash)
        ≡ some (some cell)
      → cell < b.index_capacity
      → move_entry e b
        ≡ some (
            some (record b {
              entries = es';
              entry_next_insert = b.entry_next_insert + 1;
              head_idx = head';
              tail_idx = b.entry_next_insert;
              index_list = update b.index_list cell (b.entry_next_insert + 1);
            }))
  unfolding move_entry
  move_run e b es' head' cell lt next32 link found cl = rw (
    lt→ltb b.entry_next_insert b.entry_capacity lt,
    write_lem b.entries b.entry_capacity b.entry_next_insert e lt,
    next32,
    link,
    found,
    set_index_lem keys
        (record b {
          entries = es';
          entry_next_insert = b.entry_next_insert + 1;
          head_idx = head';
          tail_idx = b.entry_next_insert;
        })
        cell (b.entry_next_insert + 1) cl,
  )

  pub move_entry_lem :
      (e : Entry K) (b : Table K)
      → IsBuilt b
      → b.entry_next_insert < b.entry_capacity
      → e.cached_hash ≡ keys.hash e.key
      → Absent keys b.index_capacity b.index_list b.entries e.key
      → (b' : Table K) × (move_entry e b ≡ some (some b')) × IsMoved e b b'
  move_entry_lem e b built lt hashed a =
      let ix = built.indexed in
      let next32 : u32 (b.entry_next_insert + 1) ≡ b.entry_next_insert + 1 =
        mod-eq_of_lt {m = 2 ^ 32} (omega (arith, small_next keys ix)) in
      let (free, fl, dead) =
        find_dead b.index_list b.index_capacity (omega (arith, ix.total, ix.entry_cap)) in
      let (es', head', link, same, linked) = copied-IsLinked e b built lt in
      let b₁ : Table K = record (copied e b built lt) {
        entries = es';
        head_idx = head';
        tail_idx = b.entry_next_insert;
      } in
      let (cell, found, cl, vacant, reach) =
        find_empty_lem b₁ ix.capacity (masked b.index_capacity e.cached_hash)
          (masked-lt ix.capacity e.cached_hash) free fl (built.clean free fl dead) in
      let reach' =
        subst
          (λ (hash : ℕ). Reaches b.index_capacity b.index_list (masked b.index_capacity hash) cell)
          hashed reach in
      let set = moved-IsWritten e b built lt hashed a es' head' same linked cell cl vacant reach' in
      (
        moved e b built lt hashed a es' head' same linked cell cl vacant reach',
        move_run e b es' head' cell lt next32 link found cl,
        record {
          built = moved-IsBuilt e b built lt hashed a es' head' same linked cell cl vacant reach';
          one_more = refl;
          self = set.self;
          others =
              λ q ne. record { maps = (set.others q ne).maps; absent = (set.others q ne).absent };
          same_index = refl;
          same_entries = refl;
          same_count = refl;
        },
      )
