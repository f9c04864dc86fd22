-- ===== src/Xpoll/RemoveLast.antt =====
-- XPOLL_CTL_DEL of src/event/xpoll.c over poll(2), for the last place of the list.
use freehttpd.Base.{
  ℕ, ◌+◌, ◌-◌, ◌/◌, ◌<◌, ◌≡◌, ◌≢◌, refl, sym, ◌∙◌, ap, subst, inl, inr, some, ◌||◌, ltb, arith,
  Bool-cases, eq_or_ne, ltb→lt, update, read_lem, write_lem, update_self, update_ne,
}
use freehttpd.Htable.Table.{uint32_max}
use freehttpd.Xpoll.Poll.{PollFd, Xpoll, Memory, done, ctl_del, move_last, shrink}
use freehttpd.Xpoll.Valid.{IsConsistent}
use freehttpd.Xpoll.Laws.{IsListed, listed-is_missing}
use freehttpd.Xpoll.Remove.{moved}

-- a state in which the descriptor of the last place is gone
record IsCut (xp : Xpoll) (fd : ℕ) (xp' : Xpoll) : Type 0 where
  count : xp'.pfd_count + 1 ≡ xp.pfd_count
  list : (i : ℕ) → i < xp'.pfd_count → xp'.pfd_list i ≡ xp.pfd_list i
  gone : xp'.fd_table fd ≡ uint32_max
  kept : (j : ℕ) → fd ≢ j → xp'.fd_table j ≡ xp.fd_table j
  table_cap : xp'.fd_table_cap ≡ xp.fd_table_cap
  cap : xp'.pfd_cap ≡ xp.pfd_cap

cut-named :
    (xp : Xpoll) (fd j : ℕ) (xp' : Xpoll)
    → IsConsistent xp
    → IsListed xp fd
    → xp.fd_table fd + 1 ≡ xp.pfd_count
    → IsCut xp fd xp'
    → j < xp'.fd_table_cap
    → xp'.fd_table j ≢ uint32_max
    → xp'.fd_table j < xp'.pfd_count × ((xp'.pfd_list (xp'.fd_table j)).fd ≡ j)
unfolding IsListed
cut-named xp fd j xp' v l last c lt ne = elim (eq_or_ne fd j) [
  | inl e ↦ absurd (ne (sym (ap xp'.fd_table e) ∙ c.gone))
  | inr d ↦
      (let same = c.kept j d in
        let cap = c.table_cap in
        let count = c.count in
        let place = v.named j (omega arith) (λ e. ne (same ∙ e)) in
        let below : xp.fd_table j < xp.pfd_count = place.0 in
        let own = v.named fd (l.0) (l.1) in
        let other : xp.fd_table j ≢ xp.fd_table fd =
          λ e. d (sym (own.1) ∙ ap (λ (i : ℕ). (xp.pfd_list i).fd) (sym e) ∙ place.1) in
        let inside : xp.fd_table j < xp'.pfd_count = omega arith in
        subst (λ (i : ℕ). i < xp'.pfd_count × ((xp'.pfd_list i).fd ≡ j)) (sym same)
          (inside, ap (λ (q : PollFd). q.fd) (c.list (xp.fd_table j) inside) ∙ place.1))
]

lt_ne : (a b : ℕ) → a < b → a ≢ b
lt_ne a b h = omega arith

cut-listed :
    (xp : Xpoll) (fd i : ℕ) (xp' : Xpoll)
    → IsConsistent xp
    → xp.fd_table fd + 1 ≡ xp.pfd_count
    → IsCut xp fd xp'
    → i < xp'.pfd_count
    → (xp'.pfd_list i).fd < xp'.fd_table_cap × (xp'.fd_table (xp'.pfd_list i).fd ≡ i)
cut-listed xp fd i xp' v last c lt =
    let count = c.count in
    let cap = c.table_cap in
    let old = v.listed i (omega arith) in
    let inside : (xp.pfd_list i).fd < xp.fd_table_cap = old.0 in
    let at : xp.fd_table (xp.pfd_list i).fd ≡ i = old.1 in
    let other : fd ≢ (xp.pfd_list i).fd =
      λ e. lt_ne i (xp.fd_table fd) (omega arith) (sym at ∙ ap xp.fd_table (sym e)) in
    subst (λ (q : PollFd). q.fd < xp'.fd_table_cap × (xp'.fd_table q.fd ≡ i)) (sym (c.list i lt))
      ((omega arith), c.kept (xp.pfd_list i).fd other ∙ at)

cut-IsConsistent :
    (xp : Xpoll) (fd : ℕ) (xp' : Xpoll)
    → IsConsistent xp
    → IsListed xp fd
    → xp.fd_table fd + 1 ≡ xp.pfd_count
    → IsCut xp fd xp'
    → IsConsistent xp'
cut-IsConsistent xp fd xp' v l last c =
    let fits = v.fits in
    let small = v.small in
    let count = c.count in
    let cap = c.cap in
    record {
      fits = omega arith;
      small = omega arith;
      listed = λ i lt. cut-listed xp fd i xp' v last c lt;
      named = λ j lt ne. cut-named xp fd j xp' v l last c lt ne;
    }

shrink-IsConsistent : (m : Memory) (xp : Xpoll) → IsConsistent xp → IsConsistent (shrink m xp)
unfolding shrink
shrink-IsConsistent m xp v = elim (Bool-cases (ltb 16 xp.pfd_cap)) [
  | inl a ↦ elim (Bool-cases (ltb xp.pfd_count (xp.pfd_cap / 4))) [
    | inl b ↦ elim (Bool-cases (m.list_ok || m.info_ok)) [
      | inl c ↦
          (let lt = ltb→lt xp.pfd_count (xp.pfd_cap / 4) b in
            let small = v.small in
            rw (a, b, c)
              (record {
                fits = omega arith;
                small = omega arith;
                listed = λ i h. v.listed i h;
                named = λ j h ne. v.named j h ne;
              }))
      | inr c ↦ (rw (a, b, c) v)
    ]
    | inr b ↦ (rw (a, b) v)
  ]
  | inr a ↦ (rw (a) v)
]

-- the only place is freed
abbrev emptied : Xpoll → ℕ → Xpoll
emptied xp fd = record xp {
  fd_table = update xp.fd_table fd uint32_max;
  pfd_count = xp.pfd_count - 1;
}

-- XPOLL_CTL_DEL of the descriptor in the last place of a consistent list succeeds, and leaves a
-- consistent list.
pub ctl_del_last :
    (m : Memory) (xp : Xpoll) (fd : ℕ)
    → IsConsistent xp
    → IsListed xp fd
    → xp.fd_table fd + 1 ≡ xp.pfd_count
    → (xp' : Xpoll) × ((ctl_del m xp fd ≡ some (done xp')) × IsConsistent xp')
unfolding ctl_del move_last
ctl_del_last m xp fd v l last =
    let idx = xp.fd_table fd in
    let fits = v.fits in
    elim (Bool-cases (ltb 1 xp.pfd_count)) [
      | inl y ↦
          (let cut : IsCut xp fd (moved xp fd) = record {
            count = omega arith;
            list =
                λ i lt. update_ne xp.pfd_list idx i (xp.pfd_list (xp.pfd_count - 1)) (omega arith);
            gone = update_self xp.fd_table fd fd uint32_max refl;
            kept = λ j ne. update_ne xp.fd_table fd j uint32_max ne;
            table_cap = refl;
            cap = refl;
          } in
            let inside : idx < xp.pfd_cap = omega arith in
            let end_inside : xp.pfd_count - 1 < xp.pfd_cap = omega arith in
            (
              shrink m (moved xp fd),
              (
                (rw (
                  listed-is_missing xp fd v l,
                  y,
                  read_lem xp.pfd_list xp.pfd_cap (xp.pfd_count - 1) end_inside,
                  read_lem xp.fd_info_list xp.pfd_cap (xp.pfd_count - 1) end_inside,
                  write_lem xp.pfd_list xp.pfd_cap idx (xp.pfd_list (xp.pfd_count - 1)) inside,
                  write_lem xp.fd_info_list xp.pfd_cap idx (xp.fd_info_list (xp.pfd_count - 1))
                      inside,
                )),
                shrink-IsConsistent m (moved xp fd)
                    (cut-IsConsistent xp fd (moved xp fd) v l last cut),
              ),
            ))
      | inr y ↦
          (let cut : IsCut xp fd (emptied xp fd) = record {
            count = omega arith;
            list = λ i lt. refl;
            gone = update_self xp.fd_table fd fd uint32_max refl;
            kept = λ j ne. update_ne xp.fd_table fd j uint32_max ne;
            table_cap = refl;
            cap = refl;
          } in
            (
              shrink m (emptied xp fd),
              (
                (rw (listed-is_missing xp fd v l, y)),
                shrink-IsConsistent m (emptied xp fd)
                    (cut-IsConsistent xp fd (emptied xp fd) v l last cut),
              ),
            ))
    ]
