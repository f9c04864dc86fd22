-- ===== src/Xpoll/KqueueTests.antt =====
-- Runs of the kqueue(2) part of src/event/xpoll.c on a queue that refuses filters for writing.
use freehttpd.Base.{
  ℕ, ◌-◌, ◌^◌, ◌≡◌, refl, sym, ◌⊎◌, inl, inr, Bool, true, false, List, [], ◌∷◌, Option, none, some,
  ◌==◌, if◌then◌else◌, arith, Bool-cases, subst,
}
use mathlib.Core.Option.{some-injective}
use freehttpd.Xpoll.Kqueue.{Op, ev_add, ev_delete, Kqueue, wants, change, kqueue_add}
use freehttpd.Xpoll.KqueueLaws.{Applies, kqueue_add_lem, kqueue_add_reads}

abbrev Filters : Type 0
Filters = List (ℕ × ℕ)

IsThere : Filters → ℕ → ℕ → Type 0
IsThere [] fd filter = ⊥
IsThere ((a, b) ∷ s) fd filter = ((a ≡ fd) × (b ≡ filter)) ⊎ IsThere s fd filter

-- the newest filter is deleted
delete_newest : Filters → Option Filters
delete_newest [] = none
delete_newest (f ∷ s) = some s

apply : Op → ℕ → ℕ → Filters → Option Filters
unfolding delete_newest
apply ev_add fd filter s = if filter == 2 ^ 32 - 2 then none else some ((fd, filter) ∷ s)
apply ev_delete fd filter s = delete_newest s

apply_undo :
    (op : Op) (fd filter : ℕ) (s s' : Filters)
    → op ≡ ev_add
    → apply op fd filter s ≡ some s'
    → apply ev_delete fd filter s' ≡ some s
unfolding apply
apply_undo ev_add fd filter s s' e h = elim (Bool-cases (filter == 2 ^ 32 - 2)) [
  | inl y ↦ absurd (let g : none ≡ some s' = rw y at h in cc)
  | inr y ↦ subst (λ (r : Filters). delete_newest r ≡ some s) (some-injective _ _ (rw y at h)) refl
]
apply_undo ev_delete fd filter s s' e h = absurd (cc)

abbrev read_only : Kqueue
read_only = record {
  State = Filters;
  Has = IsThere;
  kevent = λ c s. apply c.op c.fd c.filter s;
  evfilt_read = 2 ^ 32 - 1;
  evfilt_write = 2 ^ 32 - 2;
  undo = λ c s s' e new h. apply_undo c.op c.fd c.filter s s' e h;
}

-- nothing is registered for descriptor 7
seven-new : ¬ (IsThere ((3, 2 ^ 32 - 1) ∷ []) 7 (2 ^ 32 - 1))
unfolding IsThere
seven-new h = ground arith

kqueue_add_lem_example :
    (kqueue_add read_only 7 0 (2 ^ 32 - 1) ((3, 2 ^ 32 - 1) ∷ []) ≡ (false, (3, 2 ^ 32 - 1) ∷ []))
    ⊎ ((s₁ : Filters) × (s₂ : Filters) × (kqueue_add read_only 7 0
            (2 ^ 32 - 1)
            ((3, 2 ^ 32 - 1) ∷ [])
          ≡ (true, s₂))
        × Applies read_only
            (wants read_only (2 ^ 32 - 1) (2 ^ 32 - 1))
            (change read_only 7 0 ev_add (2 ^ 32 - 1) (2 ^ 32 - 1))
            ((3, 2 ^ 32 - 1) ∷ [])
            s₁
        × Applies read_only
            (wants read_only (2 ^ 32 - 1) (2 ^ 32 - 2))
            (change read_only 7 0 ev_add (2 ^ 32 - 1) (2 ^ 32 - 2))
            s₁
            s₂)
kqueue_add_lem_example = kqueue_add_lem read_only 7 0 (2 ^ 32 - 1) ((3, 2 ^ 32 - 1) ∷ []) seven-new

refuse_undo :
    (b : Bool) (s s' : Filters)
    → (if b then none else some s) ≡ some s'
    → (if b then none else some s') ≡ some s
refuse_undo true s s' h = absurd (cc)
refuse_undo false s s' h = sym h

-- a queue that refuses filters for reading
abbrev write_only : Kqueue
write_only = record read_only {
  kevent = λ c s. if c.filter == 2 ^ 32 - 1 then none else some s;
  undo = λ c s s' e new h. refuse_undo (c.filter == 2 ^ 32 - 1) s s' h;
}

kqueue_add_reads_example : kqueue_add write_only 7 0 (2 ^ 32 - 2) [] ≡ (false, [])
unfolding change
kqueue_add_reads_example =
    kqueue_add_reads write_only 7 0 (2 ^ 32 - 2) [] refl (omega arith) (omega arith) refl
