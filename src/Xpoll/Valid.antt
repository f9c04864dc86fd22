-- ===== src/Xpoll/Valid.antt =====
-- The invariant of the poll(2) list of src/event/xpoll.c, and the addition of a descriptor.
use freehttpd.Base.{
  ℕ, ◌+◌, ◌*◌, ◌^◌, ◌≤◌, ◌<◌, ◌≡◌, ◌≢◌, refl, sym, ◌∙◌, ap, subst, inl, inr, true, some, ltb, leb,
  if◌then◌else◌, arith, Bool-cases, lt→ltb, eq→==, ne→==, ge→ltb, eq_or_ne, leb→le, leb→gt, ltb→lt,
  ltb→ge, update, read_lem, write_lem, update_self, update_ne, u32,
}
use freehttpd.Htable.Table.{uint32_max}
use freehttpd.Xpoll.Poll.{
  Xpoll, Memory, done, poll_events, new_table_cap, go, add_table, add_room, add_entry,
}
use native.Mathlib.Nat.{mod-eq_of_lt}

-- The list and the table name each other, and a place fits its capacities.
pub record IsConsistent (xp : Xpoll) : Type 0 where
  pub fits : xp.pfd_count ≤ xp.pfd_cap
  pub small : xp.pfd_cap < 2 ^ 31
  pub listed :
      (i : ℕ)
      → i < xp.pfd_count
      → (xp.pfd_list i).fd < xp.fd_table_cap × (xp.fd_table (xp.pfd_list i).fd ≡ i)
  pub named :
      (fd : ℕ)
      → fd < xp.fd_table_cap
      → xp.fd_table fd ≢ uint32_max
      → xp.fd_table fd < xp.pfd_count × ((xp.pfd_list (xp.fd_table fd)).fd ≡ fd)

-- every `realloc` succeeds
pub record IsAmple (m : Memory) : Type 0 where
  pub table_ok : m.table_ok ≡ true
  pub list_ok : m.list_ok ≡ true
  pub info_ok : m.info_ok ≡ true

-- the descriptor is in no place
unfoldable pub IsAbsent : Xpoll → ℕ → Type 0
IsAbsent xp fd = fd < xp.fd_table_cap → xp.fd_table fd ≡ uint32_max

-- what the growth of the table leaves: room for the descriptor
pub record IsOpen (xp : Xpoll) (fd : ℕ) (xp' : Xpoll) : Type 0 where
  pub valid : IsConsistent xp'
  pub inside : fd < xp'.fd_table_cap
  pub free : xp'.fd_table fd ≡ uint32_max
  pub same_count : xp'.pfd_count ≡ xp.pfd_count
  pub same_list : (i : ℕ) → xp'.pfd_list i ≡ xp.pfd_list i
  pub same_info : (i : ℕ) → xp'.fd_info_list i ≡ xp.fd_info_list i

abbrev grown : Xpoll → ℕ → Xpoll
grown xp fd = record xp {
  fd_table = λ i. if ltb i xp.fd_table_cap then xp.fd_table i else uint32_max;
  fd_table_cap = new_table_cap xp.fd_table_cap fd;
}

grown_inside :
    (xp : Xpoll) (fd j : ℕ) → j < xp.fd_table_cap → (grown xp fd).fd_table j ≡ xp.fd_table j
grown_inside xp fd j h = rw (lt→ltb j xp.fd_table_cap h)

grown_outside :
    (xp : Xpoll) (fd j : ℕ) → xp.fd_table_cap ≤ j → (grown xp fd).fd_table j ≡ uint32_max
grown_outside xp fd j h = rw (ge→ltb j xp.fd_table_cap h)

grown-named :
    (xp : Xpoll) (fd j : ℕ)
    → IsConsistent xp
    → (grown xp fd).fd_table j ≢ uint32_max
    → (grown xp fd).fd_table j < xp.pfd_count × ((xp.pfd_list ((grown xp fd).fd_table j)).fd ≡ j)
grown-named xp fd j v ne = elim (Bool-cases (ltb j xp.fd_table_cap)) [
  | inl y ↦
      subst (λ (i : ℕ). i < xp.pfd_count × ((xp.pfd_list i).fd ≡ j))
        (sym (grown_inside xp fd j (ltb→lt j xp.fd_table_cap y)))
        (v.named j (ltb→lt j xp.fd_table_cap y)
          (λ e. ne (grown_inside xp fd j (ltb→lt j xp.fd_table_cap y) ∙ e)))
  | inr y ↦ absurd (ne (grown_outside xp fd j (ltb→ge j xp.fd_table_cap y)))
]

grown-IsOpen :
    (xp : Xpoll) (fd : ℕ)
    → IsConsistent xp
    → xp.fd_table_cap ≤ fd
    → fd < new_table_cap xp.fd_table_cap fd
    → IsOpen xp fd (grown xp fd)
grown-IsOpen xp fd v out h = record {
  valid = record {
    fits = v.fits;
    small = v.small;
    listed = λ i lt.
        let f = (xp.pfd_list i).fd in
        let inside : f < xp.fd_table_cap = (v.listed i lt).0 in
        ((omega arith), grown_inside xp fd f inside ∙ (v.listed i lt).1);
    named = λ j lt ne. grown-named xp fd j v ne;
  };
  inside = h;
  free = grown_outside xp fd fd out;
  same_count = refl;
  same_list = λ i. refl;
  same_info = λ i. refl;
}

-- the table step succeeds when the new capacity holds the descriptor
pub add_table-IsOpen :
    (m : Memory) (xp : Xpoll) (fd : ℕ)
    → IsAmple m
    → IsConsistent xp
    → IsAbsent xp fd
    → (xp.fd_table_cap ≤ fd → fd < new_table_cap xp.fd_table_cap fd)
    → (xp' : Xpoll) × ((add_table m xp fd ≡ some (go xp'))
        × (IsOpen xp fd xp' × (xp'.pfd_cap ≡ xp.pfd_cap)))
unfolding add_table IsAbsent
add_table-IsOpen m xp fd a v free h = elim (Bool-cases (leb xp.fd_table_cap fd)) [
  | inl y ↦ (
    grown xp fd,
    (
      (rw (y, a.table_ok)),
      (grown-IsOpen xp fd v (leb→le xp.fd_table_cap fd y) (h (leb→le xp.fd_table_cap fd y)), refl),
    ),
  )
  | inr y ↦
      (let lt = leb→gt xp.fd_table_cap fd y in
        (
          xp,
          (
            (rw (
              y,
              read_lem xp.fd_table xp.fd_table_cap fd lt,
              eq→== (xp.fd_table fd) uint32_max (free lt),
            )),
            (
              record {
                valid = v;
                inside = lt;
                free = free lt;
                same_count = refl;
                same_list = λ i. refl;
                same_info = λ i. refl;
              },
              refl,
            ),
          ),
        ))
]

-- the growth of the list
roomy_cap : ℕ → ℕ
roomy_cap c = if ltb c 16 then 16 else u32 (c * 2)

roomy_cap_lem : (c : ℕ) → c < 2 ^ 30 → c < roomy_cap c × roomy_cap c < 2 ^ 31
unfolding roomy_cap
roomy_cap_lem c h =
    let fits : c * 2 < 2 ^ 32 = omega arith in
    let same : u32 (c * 2) ≡ c * 2 = mod-eq_of_lt {m = 2 ^ 32} fits in
    elim (Bool-cases (ltb c 16)) [
      | inl y ↦ (let lt = ltb→lt c 16 y in (rw (y) lt, (rw (y) (omega arith))))
      | inr y ↦
          (let le = ltb→ge c 16 y in ((rw (y, same) (omega arith)), (rw (y, same) (omega arith))))
    ]

-- what the addition of a descriptor leaves
pub record IsAdded (xp : Xpoll) (fd udata events : ℕ) (xp' : Xpoll) : Type 0 where
  pub valid : IsConsistent xp'
  pub count : xp'.pfd_count ≡ xp.pfd_count + 1
  pub place : xp'.fd_table fd ≡ xp.pfd_count
  pub entry :
      xp'.pfd_list xp.pfd_count ≡ record { fd = fd; events = poll_events events; revents = 0 }
  pub info : xp'.fd_info_list xp.pfd_count ≡ udata
  pub others :
      (i : ℕ)
      → i < xp.pfd_count
      → (xp'.pfd_list i ≡ xp.pfd_list i) × (xp'.fd_info_list i ≡ xp.fd_info_list i)

abbrev pub added : Xpoll → ℕ → ℕ → ℕ → Xpoll
added xp fd udata events = record xp {
  pfd_count = xp.pfd_count + 1;
  pfd_list =
      update xp.pfd_list xp.pfd_count
        (record { fd = fd; events = poll_events events; revents = 0 });
  fd_info_list = update xp.fd_info_list xp.pfd_count udata;
  fd_table = update xp.fd_table fd xp.pfd_count;
}

pub add_entry_lem :
    (xp : Xpoll) (fd udata events : ℕ)
    → xp.pfd_count < xp.pfd_cap
    → xp.pfd_cap < 2 ^ 31
    → fd < xp.fd_table_cap
    → add_entry xp fd udata events ≡ some (done (added xp fd udata events))
unfolding add_entry
add_entry_lem xp fd udata events room small inside =
    let fits : xp.pfd_count + 1 < 2 ^ 32 = omega arith in
    rw (
      write_lem xp.pfd_list xp.pfd_cap xp.pfd_count
          (record { fd = fd; events = poll_events events; revents = 0 }) room,
      write_lem xp.fd_info_list xp.pfd_cap xp.pfd_count udata room,
      write_lem xp.fd_table xp.fd_table_cap fd xp.pfd_count inside,
      mod-eq_of_lt {m = 2 ^ 32} fits,
    )

pub max_ne : (i : ℕ) → i < 2 ^ 31 → i ≢ uint32_max
max_ne i h = omega arith

-- the writes keep the invariant
added-listed :
    (xp : Xpoll) (fd udata events i : ℕ)
    → IsConsistent xp
    → fd < xp.fd_table_cap
    → xp.fd_table fd ≡ uint32_max
    → xp.pfd_count < 2 ^ 31
    → i < xp.pfd_count + 1
    → ((added xp fd udata events).pfd_list i).fd < xp.fd_table_cap
      × ((added xp fd udata events).fd_table ((added xp fd udata events).pfd_list i).fd ≡ i)
added-listed xp fd udata events i v inside free small lt = elim (eq_or_ne xp.pfd_count i) [
  | inl e ↦ (rw (eq→== xp.pfd_count i e) (inside, (rw (eq→== fd fd refl) e)))
  | inr ne ↦
      (let old = v.listed i (omega arith) in
        let other : fd ≢ (xp.pfd_list i).fd =
          λ same. max_ne i (omega arith) (sym (old.1) ∙ ap xp.fd_table (sym same) ∙ free) in
        rw (ne→== xp.pfd_count i ne) (old.0, (rw (ne→== fd (xp.pfd_list i).fd other) (old.1))))
]

added-named :
    (xp : Xpoll) (fd udata events j : ℕ)
    → IsConsistent xp
    → fd < xp.fd_table_cap
    → j < xp.fd_table_cap
    → (added xp fd udata events).fd_table j ≢ uint32_max
    → (added xp fd udata events).fd_table j < xp.pfd_count + 1
      × (((added xp fd udata events).pfd_list ((added xp fd udata events).fd_table j)).fd ≡ j)
added-named xp fd udata events j v inside lt ne = elim (eq_or_ne fd j) [
  | inl e ↦ (rw (eq→== fd j e, eq→== xp.pfd_count xp.pfd_count refl) ((omega arith), e))
  | inr d ↦
      (let old = v.named j lt (λ e. ne (update_ne xp.fd_table fd j xp.pfd_count d ∙ e)) in
        let below : xp.fd_table j < xp.pfd_count = old.0 in
        rw (ne→== fd j d, ne→== xp.pfd_count (xp.fd_table j) (omega arith)) ((omega arith), old.1))
]

pub added-IsAdded :
    (xp : Xpoll) (fd udata events : ℕ)
    → IsConsistent xp
    → fd < xp.fd_table_cap
    → xp.fd_table fd ≡ uint32_max
    → xp.pfd_count < xp.pfd_cap
    → IsAdded xp fd udata events (added xp fd udata events)
added-IsAdded xp fd udata events v inside free room =
    let small = v.small in
    record {
      valid = record {
        fits = omega arith;
        small = small;
        listed = λ i lt. added-listed xp fd udata events i v inside free (omega arith) lt;
        named = λ j lt ne. added-named xp fd udata events j v inside lt ne;
      };
      count = refl;
      place = update_self xp.fd_table fd fd xp.pfd_count refl;
      entry = update_self xp.pfd_list xp.pfd_count xp.pfd_count _ refl;
      info = update_self xp.fd_info_list xp.pfd_count xp.pfd_count udata refl;
      others = λ i lt. (
        update_ne xp.pfd_list xp.pfd_count i _ (omega arith),
        update_ne xp.fd_info_list xp.pfd_count i udata (omega arith),
      );
    }

-- the list step
pub add_room-IsOpen :
    (m : Memory) (xp₀ xp : Xpoll) (fd : ℕ)
    → IsAmple m
    → xp.pfd_cap < 2 ^ 30
    → IsOpen xp₀ fd xp
    → (xp' : Xpoll) × ((add_room m xp ≡ go xp') × (IsOpen xp₀ fd xp' × xp'.pfd_count < xp'.pfd_cap))
unfolding add_room roomy_cap
add_room-IsOpen m xp₀ xp fd a small o = elim (Bool-cases (leb xp.pfd_cap xp.pfd_count)) [
  | inl y ↦
      (let v = o.valid in
        let le = v.fits in
        let cap = roomy_cap_lem xp.pfd_cap small in
        let up : xp.pfd_cap < roomy_cap xp.pfd_cap = cap.0 in
        (
          record xp { pfd_cap = roomy_cap xp.pfd_cap },
          (
            (rw (y, a.list_ok, a.info_ok)),
            (
              record {
                valid = record {
                  fits = omega arith;
                  small = cap.1;
                  listed = λ i lt. v.listed i lt;
                  named = λ j lt ne. v.named j lt ne;
                };
                inside = o.inside;
                free = o.free;
                same_count = o.same_count;
                same_list = λ i. o.same_list i;
                same_info = λ i. o.same_info i;
              },
              (omega arith),
            ),
          ),
        ))
  | inr y ↦ (xp, ((rw (y)), (o, leb→gt xp.pfd_cap xp.pfd_count y)))
]
