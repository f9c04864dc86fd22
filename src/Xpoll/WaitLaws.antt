-- ===== src/Xpoll/WaitLaws.antt =====
-- What `xpoll_wait` of src/event/xpoll.c returns, and in which order.
use freehttpd.Base.{
  ℕ, zero, suc, ◌+◌, ◌-◌, ◌%◌, ◌≤◌, ◌<◌, ◌≡◌, ◌≢◌, refl, sym, ◌∙◌, ap, inl, inr, true, false, List,
  [], ◌∷◌, ◌++◌, some, if◌then◌else◌, arith, Bool-cases, lt→ltb, ne→==, ge→ltb, le→leb, gt→leb,
}
use freehttpd.Xpoll.Poll.{Xpoll}
use native.Mathlib.Nat.{mod-lt}
use freehttpd.Xpoll.WaitNext.{
  places_from, first_unseen, stored_lem, and_false, pred_suc, sub_zero, append_nil,
}
use freehttpd.Xpoll.Wait.{Event, event_at, is_ready, scan, polled, collect, wait}

-- the events of the `k` places from `i`, in order
unfoldable pub ready_from : Xpoll → ℕ → ℕ → List Event
ready_from xp i zero = []
ready_from xp i (suc k) =
    let rest = ready_from xp (i + 1) k in if is_ready xp i then event_at xp i ∷ rest else rest

-- the first `k` members
unfoldable pub take {ℓ} : {A : Type ℓ} → ℕ → List A → List A
take zero xs = []
take (suc k) [] = []
take (suc k) (x ∷ xs) = x ∷ take k xs

take_cons {ℓ} : {A : Type ℓ} (k : ℕ) (x : A) (xs : List A) → take (suc k) (x ∷ xs) ≡ x ∷ take k xs
unfolding take
take_cons k x xs = refl

take-nil {ℓ} : {A : Type ℓ} (k : ℕ) → take {A = A} k [] ≡ []
unfolding take
take-nil zero = refl
take-nil (suc k) = refl

take_zero {ℓ} : {A : Type ℓ} (xs : List A) → take zero xs ≡ []
unfolding take
take_zero xs = refl

-- after the wrap, the loop goes up to its limit
scan_up :
    (xp : Xpoll) (begin n i k limit room : ℕ)
    → k ≤ n
    → limit ≡ i + k
    → (scan xp begin n i limit true room).0 ≡ take room (ready_from xp i k)
unfolding scan ready_from
scan_up xp begin zero i zero limit room h e = sym (take-nil room)
scan_up xp begin zero i (suc k) limit room h e = ground arith
scan_up xp begin (suc n) i zero limit room h e = rw (ge→ltb i limit (omega arith), take-nil)
scan_up xp begin (suc n) i (suc k) limit zero h e = rw (lt→ltb i limit (omega arith), take_zero)
scan_up xp begin (suc n) i (suc k) limit (suc r) h e =
    let ih = λ (q : ℕ). scan_up xp begin n (i + 1) k limit q (omega arith) (omega arith) in
    elim (Bool-cases (is_ready xp i)) [
      | inl y ↦
          (rw (
            lt→ltb i limit (omega arith),
            and_false,
            lt→ltb 0 (suc r) (omega arith),
            y,
            pred_suc r,
            take_cons,
            ih r,
          ))
      | inr y ↦
          (rw (
            lt→ltb i limit (omega arith),
            and_false,
            lt→ltb 0 (suc r) (omega arith),
            y,
            ih (suc r),
          ))
    ]

-- before the wrap, from a place other than the first: to the end, then from the first place
scan_round :
    (xp : Xpoll) (begin n i k room : ℕ)
    → begin ≢ 0
    → xp.pfd_count ≡ i + suc k
    → suc k + begin ≤ n
    → (scan xp begin n i xp.pfd_count false room).0
      ≡ take room (ready_from xp i (suc k) ++ ready_from xp 0 begin)
unfolding scan ready_from
scan_round xp begin zero i k room b e h = ground arith
scan_round xp begin (suc n) i k zero b e h = rw (lt→ltb i xp.pfd_count (omega arith), take_zero)
scan_round xp begin (suc n) i zero (suc r) b e h =
    let up = λ (q : ℕ). scan_up xp begin n 0 begin begin q (omega arith) (omega arith) in
    elim (Bool-cases (is_ready xp i)) [
      | inl y ↦
          (rw (
            lt→ltb i xp.pfd_count (omega arith),
            le→leb xp.pfd_count (i + 1) (omega arith),
            ne→== begin 0 b,
            lt→ltb 0 (suc r) (omega arith),
            y,
            pred_suc r,
            take_cons,
            up r,
          ))
      | inr y ↦
          (rw (
            lt→ltb i xp.pfd_count (omega arith),
            le→leb xp.pfd_count (i + 1) (omega arith),
            ne→== begin 0 b,
            lt→ltb 0 (suc r) (omega arith),
            y,
            up (suc r),
          ))
    ]
scan_round xp begin (suc n) i (suc k) (suc r) b e h =
    let ih = λ (q : ℕ). scan_round xp begin n (i + 1) k q b (omega arith) (omega arith) in
    elim (Bool-cases (is_ready xp i)) [
      | inl y ↦
          (rw (
            lt→ltb i xp.pfd_count (omega arith),
            gt→leb xp.pfd_count (i + 1) (omega arith),
            lt→ltb 0 (suc r) (omega arith),
            y,
            pred_suc r,
            take_cons,
            ih r,
          ))
      | inr y ↦
          (rw (
            lt→ltb i xp.pfd_count (omega arith),
            gt→leb xp.pfd_count (i + 1) (omega arith),
            lt→ltb 0 (suc r) (omega arith),
            y,
            ih (suc r),
          ))
    ]

-- from the first place: to the end
scan_first :
    (xp : Xpoll) (n i k room : ℕ)
    → xp.pfd_count ≡ i + k
    → k ≤ n
    → (scan xp 0 n i xp.pfd_count false room).0 ≡ take room (ready_from xp i k)
unfolding scan ready_from
scan_first xp zero i zero room e h = sym (take-nil room)
scan_first xp zero i (suc k) room e h = ground arith
scan_first xp (suc n) i zero room e h = rw (ge→ltb i xp.pfd_count (omega arith), take-nil)
scan_first xp (suc n) i (suc k) zero e h = rw (lt→ltb i xp.pfd_count (omega arith), take_zero)
scan_first xp (suc n) i (suc k) (suc r) e h =
    let ih = λ (q : ℕ). scan_first xp n (i + 1) k q (omega arith) (omega arith) in
    elim (Bool-cases (is_ready xp i)) [
      | inl y ↦
          (rw (
            lt→ltb i xp.pfd_count (omega arith),
            and_false,
            lt→ltb 0 (suc r) (omega arith),
            y,
            pred_suc r,
            take_cons,
            ih r,
          ))
      | inr y ↦
          (rw (
            lt→ltb i xp.pfd_count (omega arith),
            and_false,
            lt→ltb 0 (suc r) (omega arith),
            y,
            ih (suc r),
          ))
    ]

-- the list from `begin`, round its end
abbrev pub round_from : Xpoll → ℕ → List Event
round_from xp begin = ready_from xp begin (xp.pfd_count - begin) ++ ready_from xp 0 begin

mod_lt : (a n : ℕ) → n ≢ 0 → a % n < n
mod_lt a n h = mod-lt a (omega arith)

round_first : (xp : Xpoll) → round_from xp 0 ≡ ready_from xp 0 xp.pfd_count
unfolding ready_from
round_first xp =
    append_nil (ready_from xp 0 (xp.pfd_count - 0))
    ∙ ap (λ c. ready_from xp 0 c) (sub_zero xp.pfd_count)

scan_from :
    (xp : Xpoll) (begin room : ℕ)
    → begin < xp.pfd_count
    → (scan xp begin xp.pfd_count begin xp.pfd_count false room).0 ≡ take room (round_from xp begin)
scan_from xp zero room h =
    scan_first xp xp.pfd_count 0 xp.pfd_count room (omega arith) (omega arith)
    ∙ ap (λ es. take room es) (sym (round_first xp))
scan_from xp (suc b) room h =
    let k = xp.pfd_count - suc (suc b) in
    scan_round xp (suc b) xp.pfd_count (suc b) k room (omega arith) (omega arith) (omega arith)
    ∙ ap (λ c. take room (ready_from xp (suc b) c ++ ready_from xp 0 (suc b))) (omega arith)

-- After a poll(2) that succeeds on a list that is not empty, when at least one event is asked for,
-- `xpoll_wait` returns the ready places in order, from the place where the last call stopped and
-- round the end of the list, cut at `max_events`. It stores where the next call begins: the first
-- place of that round that it did not look at, since the events were full, and the place where it
-- began if it looked at all of them.
pub wait_lem :
    (xp : Xpoll) (revents : ℕ → ℕ) (max_events : ℕ)
    → max_events ≢ 0
    → xp.pfd_count ≢ 0
    → ((wait xp (some revents) max_events).0
        ≡ some (
            take max_events
              (round_from (polled xp revents) (xp.pfd_last_wait_index % xp.pfd_count))))
      × ((wait xp (some revents) max_events).1.pfd_last_wait_index
          ≡ first_unseen
              (polled xp revents)
              max_events
              (places_from xp (xp.pfd_last_wait_index % xp.pfd_count))
              (xp.pfd_last_wait_index % xp.pfd_count))
unfolding wait collect places_from
wait_lem xp revents m h c =
    let xp' = polled xp revents in
    let begin = xp.pfd_last_wait_index % xp.pfd_count in
    let inside = mod_lt xp.pfd_last_wait_index xp.pfd_count c in
    (
      (rw (ne→== m 0 h, ne→== xp.pfd_count 0 c) (ap some (scan_from xp' begin m inside))),
      (rw (ne→== m 0 h, ne→== xp.pfd_count 0 c) (stored_lem xp' begin m inside)),
    )
