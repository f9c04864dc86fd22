-- ===== src/Xpoll/Laws.antt =====
-- The operations of src/event/xpoll.c over poll(2) against the invariant of its list.
use freehttpd.Base.{
  ℕ, ◌^◌, ◌≤◌, ◌<◌, ◌≡◌, ◌≢◌, refl, sym, ◌∙◌, ap, subst, inl, inr, false, none, some, ltb, leb,
  arith, Bool-cases, eq→==, ne→==, ge→ltb, eq_or_ne, update, write, read_lem, write_lem,
  update_self, update_ne, le→leb, gt→leb,
}
use freehttpd.Htable.Table.{uint32_max}
use freehttpd.Xpoll.Poll.{
  Xpoll, Memory, Errno, done, failed, poll_events, new_table_cap, add_table, add_room, add_entry,
  ctl_add, ctl_mod, is_missing,
}
use freehttpd.Xpoll.Valid.{
  IsConsistent, IsAmple, IsAbsent, IsAdded, added, added-IsAdded, add_table-IsOpen, add_room-IsOpen,
  add_entry_lem,
}

-- XPOLL_CTL_ADD of a descriptor that is in no place, on a consistent list of fewer than 2^30
-- places, with memory, succeeds if the table's capacity after its growth exceeds the
-- descriptor. It fills the next place, leaves the others, and keeps the list consistent.
pub ctl_add_lem :
    (m : Memory) (xp : Xpoll) (fd udata events : ℕ)
    → IsAmple m
    → IsConsistent xp
    → xp.pfd_cap < 2 ^ 30
    → IsAbsent xp fd
    → (xp.fd_table_cap ≤ fd → fd < new_table_cap xp.fd_table_cap fd)
    → (xp' : Xpoll) × ((ctl_add m xp fd udata events ≡ some (done xp'))
        × IsAdded xp fd udata events xp')
unfolding ctl_add
ctl_add_lem m xp fd udata events a v small free h =
    let (xp₁, (e₁, (o₁, cap))) = add_table-IsOpen m xp fd a v free h in
    let (xp₂, (e₂, (o₂, room))) = add_room-IsOpen m xp xp₁ fd a (omega arith) o₁ in
    let new = added-IsAdded xp₂ fd udata events o₂.valid o₂.inside o₂.free room in
    let n : xp₂.pfd_count ≡ xp.pfd_count = o₂.same_count in
    (
      added xp₂ fd udata events,
      (
        (rw (e₁, e₂, add_entry_lem xp₂ fd udata events room (o₂.valid.small) o₂.inside)),
        record {
          valid = new.valid;
          count = omega arith;
          place = new.place ∙ n;
          entry =
              subst
                (λ (k : ℕ).
                  (added xp₂ fd udata events).pfd_list k
                  ≡ record { fd = fd; events = poll_events events; revents = 0 })
                n new.entry;
          info = subst (λ (k : ℕ). (added xp₂ fd udata events).fd_info_list k ≡ udata) n new.info;
          others = λ i lt.
              let old = new.others i (omega arith) in
              (old.0 ∙ o₂.same_list i, old.1 ∙ o₂.same_info i);
        },
      ),
    )

-- XPOLL_CTL_ADD of a descriptor that is in the table fails with EEXIST and changes nothing.
ctl_add_twice :
    (m : Memory) (xp : Xpoll) (fd udata events : ℕ)
    → fd < xp.fd_table_cap
    → xp.fd_table fd ≢ uint32_max
    → ctl_add m xp fd udata events ≡ some (failed xp Errno.eexist)
unfolding ctl_add add_table
ctl_add_twice m xp fd udata events lt ne = rw (
  gt→leb xp.fd_table_cap fd lt,
  read_lem xp.fd_table xp.fd_table_cap fd lt,
  ne→== (xp.fd_table fd) uint32_max ne,
)

-- the last write of an addition faults outside the table
add_entry_overrun :
    (xp : Xpoll) (fd udata events : ℕ) → xp.fd_table_cap ≤ fd → add_entry xp fd udata events ≡ none
unfolding add_entry write
add_entry_overrun xp fd udata events out = elim (Bool-cases (ltb xp.pfd_count xp.pfd_cap)) [
  | inl y ↦ (rw (y, ge→ltb fd xp.fd_table_cap out))
  | inr y ↦ (rw (y))
]

-- XPOLL_CTL_ADD of a descriptor that its grown table still does not hold writes past the end of
-- the table, when there is memory for the call.
pub ctl_add_overrun :
    (m : Memory) (xp : Xpoll) (fd udata events : ℕ)
    → IsAmple m
    → xp.fd_table_cap ≤ fd
    → new_table_cap xp.fd_table_cap fd ≤ fd
    → ctl_add m xp fd udata events ≡ none
unfolding ctl_add add_table add_room
ctl_add_overrun m xp fd udata events a out short = elim (Bool-cases (leb xp.pfd_cap xp.pfd_count)) [
  | inl y ↦
      (rw (le→leb xp.fd_table_cap fd out, a.table_ok, y, a.list_ok, a.info_ok)
        (add_entry_overrun _ fd udata events short))
  | inr y ↦
      (rw (le→leb xp.fd_table_cap fd out, a.table_ok, y)
        (add_entry_overrun _ fd udata events short))
]

-- a descriptor in the table
unfoldable pub IsListed : Xpoll → ℕ → Type 0
IsListed xp fd = fd < xp.fd_table_cap × (xp.fd_table fd ≢ uint32_max)

pub listed-is_missing :
    (xp : Xpoll) (fd : ℕ) → IsConsistent xp → IsListed xp fd → is_missing xp fd ≡ false
unfolding is_missing IsListed
listed-is_missing xp fd v l =
    let place = v.named fd (l.0) (l.1) in
    rw (
      ne→== xp.pfd_count 0 (omega arith),
      gt→leb xp.fd_table_cap fd (l.0),
      ne→== (xp.fd_table fd) uint32_max (l.1),
    )

-- what XPOLL_CTL_MOD leaves
pub record IsModified (xp : Xpoll) (fd udata events : ℕ) (xp' : Xpoll) : Type 0 where
  pub valid : IsConsistent xp'
  pub entry :
      xp'.pfd_list (xp.fd_table fd)
      ≡ record (xp.pfd_list (xp.fd_table fd)) { events = poll_events events }
  pub info : xp'.fd_info_list (xp.fd_table fd) ≡ udata
  pub others :
      (i : ℕ)
      → i ≢ xp.fd_table fd
      → (xp'.pfd_list i ≡ xp.pfd_list i) × (xp'.fd_info_list i ≡ xp.fd_info_list i)

abbrev modified : Xpoll → ℕ → ℕ → ℕ → Xpoll
modified xp fd udata events = record xp {
  pfd_list =
      update xp.pfd_list (xp.fd_table fd)
        (record (xp.pfd_list (xp.fd_table fd)) { events = poll_events events });
  fd_info_list = update xp.fd_info_list (xp.fd_table fd) udata;
}

-- a change of `events` keeps the descriptor of each place
modified_fd :
    (xp : Xpoll) (fd udata events i : ℕ)
    → ((modified xp fd udata events).pfd_list i).fd ≡ (xp.pfd_list i).fd
modified_fd xp fd udata events i = elim (eq_or_ne (xp.fd_table fd) i) [
  | inl e ↦ (rw (eq→== (xp.fd_table fd) i e) (ap (λ (k : ℕ). (xp.pfd_list k).fd) e))
  | inr ne ↦ (rw (ne→== (xp.fd_table fd) i ne))
]

-- XPOLL_CTL_MOD of a descriptor in the table of a consistent list succeeds, changes `events` and
-- `udata` of its place only, and keeps the list consistent.
pub ctl_mod_lem :
    (xp : Xpoll) (fd udata events : ℕ)
    → IsConsistent xp
    → IsListed xp fd
    → (xp' : Xpoll) × ((ctl_mod xp fd udata events ≡ some (done xp'))
        × IsModified xp fd udata events xp')
unfolding ctl_mod IsListed
ctl_mod_lem xp fd udata events v l =
    let idx = xp.fd_table fd in
    let place = v.named fd (l.0) (l.1) in
    let below : idx < xp.pfd_count = place.0 in
    let fits = v.fits in
    let inside : idx < xp.pfd_cap = omega arith in
    (
      modified xp fd udata events,
      (
        (rw (
          listed-is_missing xp fd v l,
          write_lem xp.pfd_list xp.pfd_cap idx
              (record (xp.pfd_list idx) { events = poll_events events }) inside,
          write_lem xp.fd_info_list xp.pfd_cap idx udata inside,
        )),
        record {
          valid = record {
            fits = v.fits;
            small = v.small;
            listed = λ i lt.
                subst (λ (f : ℕ). f < xp.fd_table_cap × (xp.fd_table f ≡ i))
                  (sym (modified_fd xp fd udata events i)) (v.listed i lt);
            named = λ j lt ne. (
              (v.named j lt ne).0,
              modified_fd xp fd udata events (xp.fd_table j) ∙ (v.named j lt ne).1,
            );
          };
          entry = update_self xp.pfd_list idx idx _ refl;
          info = update_self xp.fd_info_list idx idx udata refl;
          others = λ i ne. (
            update_ne xp.pfd_list idx i _ (λ e. ne (sym e)),
            update_ne xp.fd_info_list idx i udata (λ e. ne (sym e)),
          );
        },
      ),
    )
