-- ===== src/Uring/Drain.antt =====
-- `fh_xio_drain` of src/event/xio_uring.c: all requests are cancelled, and the loop waits for the
-- completion of an entry of its own behind them. What each wait of io_uring answers is given; a list
-- of answers that ends is a loop that still waits.
use freehttpd.Base.{
  ℕ, ◌≡◌, refl, sym, ◌∙◌, ap, Bool, true, false, ◌||◌, ◌&&◌, not, inl, inr, Bool-cases, arith, List,
  [], ◌∷◌, ◌++◌, Option, none, some, ◌==◌, if◌then◌else◌, ◌>>=◌,
}
use freehttpd.Uring.Wait.{Cqe}

-- a wait: EINTR, another error, or the completions that are ready
pub data Answer : Type 0 where
  interrupted refused : Answer
  ready : List Cqe → Answer

-- The loop over the completions: the records that are freed, and whether the drain's own entry,
-- which has the address `self` of the context, is among them.
unfoldable pub drain_cqes : ℕ → List Cqe → List ℕ × Bool
drain_cqes self [] = ([], false)
drain_cqes self (cqe ∷ cqes) =
    let rest = drain_cqes self cqes in
    if cqe.user_data == self
    then (rest.0, true)
    else (if cqe.user_data == 0 || cqe.flags.more then rest else (cqe.user_data ∷ rest.0, rest.1))

-- what is returned, and the records that were freed
abbrev pub Drained : Type 0
Drained = Bool × List ℕ

unfoldable pub after_batch : List ℕ × Bool → Option Drained → Option Drained
after_batch (freed, true) rest = some (true, freed)
after_batch (freed, false) rest = do r ← rest; some (r.0, freed ++ r.1)

-- the loop that waits
unfoldable pub drain_loop : ℕ → List Answer → Option Drained
unfolding drain_cqes after_batch
drain_loop self [] = none
drain_loop self (interrupted ∷ answers) = drain_loop self answers
drain_loop self (refused ∷ answers) = some (false, [])
drain_loop self (ready cqes ∷ answers) =
    after_batch (drain_cqes self cqes) (drain_loop self answers)

-- `fh_xio_drain`: whether there is an entry for the cancellation, and one for the own entry
unfoldable pub drain_all : Bool → Bool → ℕ → List Answer → Option Drained
unfolding drain_loop
drain_all cancel_sqe nop_sqe self answers =
    if cancel_sqe
    then (if nop_sqe then drain_loop self answers else some (false, []))
    else some (false, [])

-- an entry of the drain itself
unfoldable pub is_own : ℕ → Cqe → Bool
is_own self cqe = cqe.user_data == self

-- the last completion of a request: not an own entry, with a record, and with none to follow
unfoldable pub is_finished : ℕ → Cqe → Bool
unfolding is_own
is_finished self cqe = not (is_own self cqe) && (not (cqe.user_data == 0) && not cqe.flags.more)

unfoldable pub any : (Cqe → Bool) → List Cqe → Bool
any test [] = false
any test (cqe ∷ cqes) = test cqe || any test cqes

unfoldable pub filter : (Cqe → Bool) → List Cqe → List Cqe
filter test [] = []
filter test (cqe ∷ cqes) = let rest = filter test cqes in if test cqe then cqe ∷ rest else rest

unfoldable pub addresses : List Cqe → List ℕ
addresses [] = []
addresses (cqe ∷ cqes) = cqe.user_data ∷ addresses cqes

-- the records of the requests that finished, in the order of the completions
abbrev pub finished : ℕ → List Cqe → List ℕ
finished self cqes = addresses (filter (is_finished self) cqes)

-- all completions of several answers
unfoldable pub completions : List Answer → List Cqe
completions [] = []
completions (interrupted ∷ answers) = completions answers
completions (refused ∷ answers) = completions answers
completions (ready cqes ∷ answers) = cqes ++ completions answers

-- the waits neither fail nor have an own entry
unfoldable pub AreWaiting : ℕ → List Answer → Type 0
AreWaiting self [] = Unit
AreWaiting self (interrupted ∷ answers) = AreWaiting self answers
AreWaiting self (refused ∷ answers) = ⊥
AreWaiting self (ready cqes ∷ answers) = (any (is_own self) cqes ≡ false) × AreWaiting self answers

finished-append :
    (self : ℕ) (xs ys : List Cqe) → finished self (xs ++ ys) ≡ finished self xs ++ finished self ys
unfolding filter addresses
finished-append self [] ys = refl
finished-append self (x ∷ xs) ys = elim (Bool-cases (is_finished self x)) [
  | inl y ↦ rw (y) (ap (λ r. x.user_data ∷ r) (finished-append self xs ys))
  | inr z ↦ rw (z) (finished-append self xs ys)
]

step_lem :
    (self : ℕ) (cqe : Cqe) (cqes : List Cqe)
    → drain_cqes self cqes ≡ (finished self cqes, any (is_own self) cqes)
    → drain_cqes self (cqe ∷ cqes) ≡ (finished self (cqe ∷ cqes), any (is_own self) (cqe ∷ cqes))
unfolding drain_cqes any filter addresses is_finished is_own
step_lem self cqe cqes ih = rw (ih) (ground arith)

-- the loop over the completions
drain_cqes_lem :
    (self : ℕ) (cqes : List Cqe)
    → drain_cqes self cqes ≡ (finished self cqes, any (is_own self) cqes)
unfolding drain_cqes any filter addresses
drain_cqes_lem self [] = refl
drain_cqes_lem self (cqe ∷ cqes) = step_lem self cqe cqes (drain_cqes_lem self cqes)

batch_goes :
    (self : ℕ) (cqes more : List Cqe)
    → any (is_own self) cqes ≡ false
    → after_batch (drain_cqes self cqes) (some (true, finished self more))
      ≡ some (true, finished self (cqes ++ more))
unfolding after_batch
batch_goes self cqes more e = rw (drain_cqes_lem self cqes, e, finished-append self cqes more) refl

batch_ends :
    (self : ℕ) (cqes : List Cqe) (rest : Option Drained)
    → any (is_own self) cqes ≡ true
    → after_batch (drain_cqes self cqes) rest ≡ some (true, finished self cqes)
unfolding after_batch
batch_ends self cqes rest e = rw (drain_cqes_lem self cqes, e) refl

append_assoc : (xs ys zs : List Cqe) → (xs ++ ys) ++ zs ≡ xs ++ (ys ++ zs)
append_assoc [] ys zs = refl
append_assoc (x ∷ xs) ys zs = ap (λ r. x ∷ r) (append_assoc xs ys zs)

-- When the drain gets its two entries, then however many waits are interrupted or answer without the
-- own entry, as soon as one answers with it the drain ends and returns true. Among the completions of
-- all answers up to then, it has freed the record of each that is not its own, names a record and is
-- the last of its request, in their order, and no other.
pub drain_all_lem :
    (self : ℕ) (waits : List Answer) (cqes : List Cqe) (later : List Answer)
    → AreWaiting self waits
    → any (is_own self) cqes ≡ true
    → drain_all true true self (waits ++ (ready cqes ∷ later))
      ≡ some (true, finished self (completions waits ++ cqes))
unfolding drain_all drain_loop completions AreWaiting
drain_all_lem self [] cqes later w own = batch_ends self cqes (drain_loop self later) own
drain_all_lem self (interrupted ∷ waits) cqes later w own =
    drain_all_lem self waits cqes later w own
drain_all_lem self (refused ∷ waits) cqes later w own = absurd w
drain_all_lem self (ready batch ∷ waits) cqes later (none_yet, w) own =
    ap (λ (r : Option Drained). after_batch (drain_cqes self batch) r)
      (drain_all_lem self waits cqes later w own)
    ∙ batch_goes self batch (completions waits ++ cqes) none_yet
    ∙ ap (λ (cs : List Cqe). some (true, finished self cs))
        (sym (append_assoc batch (completions waits) cqes))
