-- ===== src/Xpoll/KqueueLaws.antt =====
-- Adding filters to kqueue(2) in src/event/xpoll.c: what a failure leaves, and which filters are
-- added.
use freehttpd.Base.{
  ℕ, ◌-◌, ◌^◌, ◌<◌, ◌≡◌, ◌≢◌, refl, ◌∙◌, ap, ◌⊎◌, inl, inr, bit_and, Bool, true, false, none, some,
  Bool-cases, Option-cases, ne→==,
}
use native.Mathlib.Nat.{mod-eq_of_lt}
use freehttpd.Base.Bits.{bit_and_mask}
use freehttpd.Xpoll.Kqueue.{
  ev_add, Change, Kqueue, is_add, wants, change, read_part, write_part, roll_back, kqueue_ctl,
  kqueue_add, Part, stopped, went, and_then, result,
}

module _ (kq : Kqueue) where
  open kq use {State, Has, kevent, evfilt_read, evfilt_write, undo}

  -- the filter is added if it is wanted, and else nothing happens
  unfoldable pub Applies : Bool → Change → State → State → Type 0
  Applies true c s s' = kevent c s ≡ some s'
  Applies false c s s' = s' ≡ s

  module _ (fd udata events : ℕ) where
    abbrev read_change : Change
    read_change = change kq fd udata ev_add events evfilt_read

    abbrev write_change : Change
    write_change = change kq fd udata ev_add events evfilt_write

    abbrev reading : State → Part kq
    reading s = read_part kq fd udata ev_add events true s

    abbrev writing : Bool → State → Part kq
    writing ret s = write_part kq fd udata ev_add events true ret s

    read_no : (s : State) → wants kq events evfilt_read ≡ false → reading s ≡ went false s
    unfolding read_part
    read_no s w = rw (w)

    read_fails :
        (s : State)
        → wants kq events evfilt_read ≡ true
        → kevent read_change s ≡ none
        → reading s ≡ stopped s
    unfolding read_part
    read_fails s w e = rw (w, e)

    read_goes :
        (s s' : State)
        → wants kq events evfilt_read ≡ true
        → kevent read_change s ≡ some s'
        → reading s ≡ went true s'
    unfolding read_part
    read_goes s s' w e = rw (w, e)

    write_no :
        (s : State) (ret : Bool) → wants kq events evfilt_write ≡ false → writing ret s ≡ went ret s
    unfolding write_part
    write_no s ret w = rw (w)

    write_goes :
        (s s' : State) (ret : Bool)
        → wants kq events evfilt_write ≡ true
        → kevent write_change s ≡ some s'
        → writing ret s ≡ went true s'
    unfolding write_part
    write_goes s s' ret w e = rw (w, e)

    write_fails :
        (s : State) (ret : Bool)
        → wants kq events evfilt_write ≡ true
        → kevent write_change s ≡ none
        → writing ret s ≡ stopped (roll_back kq fd udata ev_add events s)
    unfolding write_part
    write_fails s ret w e = rw (w, e)

    back_no :
        (s : State)
        → wants kq events evfilt_read ≡ false
        → roll_back kq fd udata ev_add events s ≡ s
    unfolding roll_back is_add
    back_no s w = rw (w)

    -- the filter for reading is taken away again
    back_yes :
        (s s' : State)
        → ¬ (Has s fd evfilt_read)
        → wants kq events evfilt_read ≡ true
        → kevent read_change s ≡ some s'
        → roll_back kq fd udata ev_add events s' ≡ s
    unfolding roll_back is_add change
    back_yes s s' new w e = rw (w, undo read_change s s' refl new e)

    steps :
        (s : State) (p q : Part kq)
        → reading s ≡ p
        → and_then kq p writing ≡ q
        → kqueue_add kq fd udata events s ≡ result kq q
    unfolding kqueue_add kqueue_ctl
    steps s p q e f = ap (λ r. result kq (and_then kq r writing)) e ∙ ap (λ r. result kq r) f

    -- `xpoll_add_fd` of a descriptor whose filter for reading is not there either returns false and
    -- leaves the queue as it was, or adds every filter that is wanted and returns true.
    pub kqueue_add_lem :
        (s : State)
        → ¬ (Has s fd evfilt_read)
        → (kqueue_add kq fd udata events s ≡ (false, s))
          ⊎ ((s₁ : State) × (s₂ : State) × (kqueue_add kq fd udata events s ≡ (true, s₂))
              × Applies (wants kq events evfilt_read) read_change s s₁
              × Applies (wants kq events evfilt_write) write_change s₁ s₂)
    unfolding Applies
    kqueue_add_lem s new = elim (Bool-cases (wants kq events evfilt_read)) [
      | inl r ↦ elim (Option-cases (kevent read_change s)) [
        | inl f ↦ inl (steps s (stopped s) (stopped s) (read_fails s r f) refl)
        | inr (s₁, a) ↦ elim (Bool-cases (wants kq events evfilt_write)) [
          | inl w ↦ elim (Option-cases (kevent write_change s₁)) [
            | inl f ↦ inl (
                steps s (went true s₁) (stopped s) (read_goes s s₁ r a)
                  (write_fails s₁ true w f ∙ ap (λ t. stopped t) (back_yes s s₁ new r a)))
            | inr (s₂, b) ↦ inr (
              s₁,
              s₂,
              steps s (went true s₁) (went true s₂) (read_goes s s₁ r a)
                  (write_goes s₁ s₂ true w b),
              (rw (r) a),
              (rw (w) b),
            )
          ]
          | inr w ↦ inr (
            s₁,
            s₁,
            steps s (went true s₁) (went true s₁) (read_goes s s₁ r a) (write_no s₁ true w),
            (rw (r) a),
            (rw (w) refl),
          )
        ]
      ]
      | inr r ↦ elim (Bool-cases (wants kq events evfilt_write)) [
        | inl w ↦ elim (Option-cases (kevent write_change s)) [
          | inl f ↦ inl (
              steps s (went false s) (stopped s) (read_no s r)
                (write_fails s false w f ∙ ap (λ t. stopped t) (back_no s r)))
          | inr (s₂, b) ↦ inr (
            s,
            s₂,
            steps s (went false s) (went true s₂) (read_no s r) (write_goes s s₂ false w b),
            (rw (r) refl),
            (rw (w) b),
          )
        ]
        | inr w ↦ inl (steps s (went false s) (went false s) (read_no s r) (write_no s false w))
      ]
    ]

    all_bits :
        evfilt_read ≡ 2 ^ 32 - 1 → events < 2 ^ 32 → events ≢ 0 → wants kq events evfilt_read ≡ true
    unfolding wants
    all_bits e small ne =
        let kept : bit_and events (2 ^ 32 - 1) ≡ events =
          bit_and_mask 32 events ∙ mod-eq_of_lt {m = 2 ^ 32} small in
        let same : bit_and events evfilt_read ≡ events =
          ap (λ (m : ℕ). bit_and events m) e ∙ kept in
        rw (same, ne→== events 0 ne)

    -- Where EVFILT_READ is -1, the word of all ones, `xpoll_add_fd` asks for the filter for reading
    -- with any `events` but 0: it fails and changes nothing if that filter cannot be added, also
    -- where `events` is XPOLL_WRITE.
    pub kqueue_add_reads :
        (s : State)
        → evfilt_read ≡ 2 ^ 32 - 1
        → events < 2 ^ 32
        → events ≢ 0
        → kevent read_change s ≡ none
        → kqueue_add kq fd udata events s ≡ (false, s)
    kqueue_add_reads s e small ne f =
        steps s (stopped s) (stopped s) (read_fails s (all_bits e small ne) f) refl
