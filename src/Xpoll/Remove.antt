-- ===== src/Xpoll/Remove.antt =====
-- XPOLL_CTL_DEL of src/event/xpoll.c over poll(2).
use freehttpd.Base.{
  ℕ, ◌+◌, ◌-◌, ◌/◌, ◌≤◌, ◌<◌, ◌≡◌, ◌≢◌, refl, sym, ◌∙◌, ap, inl, inr, some, ◌||◌, ltb, arith,
  Bool-cases, lt→ltb, ltb→lt, update, read_lem, write_lem, update_self, update_ne,
}
use freehttpd.Htable.Table.{uint32_max}
use freehttpd.Xpoll.Poll.{PollFd, Xpoll, Memory, done, ctl_del, move_last, shrink}
use freehttpd.Xpoll.Valid.{IsConsistent}
use freehttpd.Xpoll.Laws.{IsListed, listed-is_missing}

-- the list before it is shrunk, when a place other than the last is freed
abbrev pub moved : Xpoll → ℕ → Xpoll
moved xp fd = record xp {
  fd_table = update xp.fd_table fd uint32_max;
  pfd_list = update xp.pfd_list (xp.fd_table fd) (xp.pfd_list (xp.pfd_count - 1));
  fd_info_list = update xp.fd_info_list (xp.fd_table fd) (xp.fd_info_list (xp.pfd_count - 1));
  pfd_count = xp.pfd_count - 1;
}

-- a shrunk list is the same list with another capacity
record IsShrunk (xp xp' : Xpoll) : Type 0 where
  count : xp'.pfd_count ≡ xp.pfd_count
  list : xp'.pfd_list ≡ xp.pfd_list
  info : xp'.fd_info_list ≡ xp.fd_info_list
  table : xp'.fd_table ≡ xp.fd_table
  table_cap : xp'.fd_table_cap ≡ xp.fd_table_cap
  fits : xp.pfd_count ≤ xp.pfd_cap → xp'.pfd_count ≤ xp'.pfd_cap
  small : xp'.pfd_cap ≤ xp.pfd_cap

unshrunk-IsShrunk : (xp : Xpoll) → IsShrunk xp xp
unshrunk-IsShrunk xp = record {
  count = refl;
  list = refl;
  info = refl;
  table = refl;
  table_cap = refl;
  fits = λ h. h;
  small = omega arith;
}

shrink-IsShrunk : (m : Memory) (xp : Xpoll) → IsShrunk xp (shrink m xp)
unfolding shrink
shrink-IsShrunk m xp = elim (Bool-cases (ltb 16 xp.pfd_cap)) [
  | inl a ↦ elim (Bool-cases (ltb xp.pfd_count (xp.pfd_cap / 4))) [
    | inl b ↦ elim (Bool-cases (m.list_ok || m.info_ok)) [
      | inl c ↦
          (let lt = ltb→lt xp.pfd_count (xp.pfd_cap / 4) b in
            rw (a, b, c)
              (record {
                count = refl;
                list = refl;
                info = refl;
                table = refl;
                table_cap = refl;
                fits = λ h. omega arith;
                small = omega arith;
              }))
      | inr c ↦ (rw (a, b, c) (unshrunk-IsShrunk xp))
    ]
    | inr b ↦ (rw (a, b) (unshrunk-IsShrunk xp))
  ]
  | inr a ↦ (rw (a) (unshrunk-IsShrunk xp))
]

-- XPOLL_CTL_DEL of a place other than the last succeeds
ctl_del_moves :
    (m : Memory) (xp : Xpoll) (fd : ℕ)
    → IsConsistent xp
    → IsListed xp fd
    → xp.fd_table fd + 1 < xp.pfd_count
    → ctl_del m xp fd ≡ some (done (shrink m (moved xp fd)))
unfolding ctl_del move_last
ctl_del_moves m xp fd v l h =
    let idx = xp.fd_table fd in
    let last = xp.pfd_count - 1 in
    let fits = v.fits in
    let inside : idx < xp.pfd_cap = omega arith in
    let last_inside : last < xp.pfd_cap = omega arith in
    rw (
      listed-is_missing xp fd v l,
      lt→ltb 1 xp.pfd_count (omega arith),
      read_lem xp.pfd_list xp.pfd_cap last last_inside,
      read_lem xp.fd_info_list xp.pfd_cap last last_inside,
      write_lem xp.pfd_list xp.pfd_cap idx (xp.pfd_list last) inside,
      write_lem xp.fd_info_list xp.pfd_cap idx (xp.fd_info_list last) inside,
    )

differs : (a b : ℕ) → b < a → a ≢ b
differs a b h = omega arith

-- On a consistent list, XPOLL_CTL_DEL of a descriptor whose place is not the last one succeeds and
-- moves the last place to the freed one, but leaves the table's entry of the moved descriptor at
-- the place after the new end, so that the list is not consistent afterwards.
pub ctl_del_stale :
    (m : Memory) (xp : Xpoll) (fd : ℕ)
    → IsConsistent xp
    → IsListed xp fd
    → xp.fd_table fd + 1 < xp.pfd_count
    → (xp' : Xpoll) × ((ctl_del m xp fd ≡ some (done xp'))
        × ((xp'.pfd_list (xp.fd_table fd) ≡ xp.pfd_list (xp.pfd_count - 1))
            × ((xp'.fd_table (xp.pfd_list (xp.pfd_count - 1)).fd ≡ xp'.pfd_count)
                × ¬ (IsConsistent xp'))))
unfolding IsListed
ctl_del_stale m xp fd v l h =
    let idx = xp.fd_table fd in
    let last = xp.pfd_count - 1 in
    let f = (xp.pfd_list last).fd in
    let s = shrink-IsShrunk m (moved xp fd) in
    let old = v.listed last (omega arith) in
    let xp' = shrink m (moved xp fd) in
    let other : fd ≢ f =
      λ e. differs last idx (omega arith) (sym (old.1) ∙ ap xp.fd_table (sym e)) in
    let count : xp'.pfd_count ≡ last = s.count in
    let at_f : xp'.fd_table f ≡ last =
      ap (λ (t : ℕ → ℕ). t f) s.table ∙ update_ne xp.fd_table fd f uint32_max other ∙ old.1 in
    let entry : xp'.pfd_list idx ≡ xp.pfd_list last =
      ap (λ (t : ℕ → PollFd). t idx) s.list
      ∙ update_self xp.pfd_list idx idx (xp.pfd_list last) refl in
    (
      xp',
      (
        ctl_del_moves m xp fd v l h,
        (
          entry,
          (
            at_f ∙ sym count,
            λ w.
                let back = w.listed idx (omega arith) in
                differs last idx (omega arith)
                  (sym at_f ∙ ap (λ (q : PollFd). xp'.fd_table q.fd) (sym entry) ∙ back.1),
          ),
        ),
      ),
    )
