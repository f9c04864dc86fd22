-- ===== src/Xpoll/WaitNext.antt =====
-- Where `xpoll_wait` of src/event/xpoll.c stops, which is where the next call begins.
use freehttpd.Base.{
  ℕ, zero, suc, ◌+◌, ◌-◌, ◌≤◌, ◌<◌, ◌≡◌, ◌≢◌, refl, sym, ◌∙◌, ap, inl, inr, Bool, true, false, List,
  [], ◌∷◌, ◌++◌, ◌&&◌, if◌then◌else◌, arith, Bool-cases, lt→ltb, ne→==, ge→ltb, le→leb, gt→leb, leb,
}
use freehttpd.Xpoll.Poll.{Xpoll}
use freehttpd.Xpoll.Wait.{is_ready, scan}

-- the `k` places from `i`
unfoldable pub places : ℕ → ℕ → List ℕ
places i zero = []
places i (suc k) = i ∷ places (i + 1) k

-- the places from `begin`, round the end of the list
unfoldable pub places_from : Xpoll → ℕ → List ℕ
places_from xp begin = places begin (xp.pfd_count - begin) ++ places 0 begin

-- The first of the places that is not looked at, when the looking stops after `room` ready places;
-- `last` if all of them are.
unfoldable pub first_unseen : Xpoll → ℕ → List ℕ → ℕ → ℕ
first_unseen xp room [] last = last
first_unseen xp zero (i ∷ is) last = i
first_unseen xp (suc r) (i ∷ is) last = first_unseen xp (if is_ready xp i then r else suc r) is last

pub and_false : (b : Bool) → (b && false) ≡ false
and_false true = refl
and_false false = refl

pub pred_suc : (r : ℕ) → suc r - 1 ≡ r
pred_suc r = omega arith

first_ready :
    (xp : Xpoll) (i r : ℕ) (is : List ℕ) (last : ℕ)
    → is_ready xp i ≡ true
    → first_unseen xp (suc r) (i ∷ is) last ≡ first_unseen xp r is last
unfolding first_unseen
first_ready xp i r is last y = rw (y) refl

first_idle :
    (xp : Xpoll) (i r : ℕ) (is : List ℕ) (last : ℕ)
    → is_ready xp i ≡ false
    → first_unseen xp (suc r) (i ∷ is) last ≡ first_unseen xp (suc r) is last
unfolding first_unseen
first_idle xp i r is last y = rw (y) refl

-- after the wrap
next_up :
    (xp : Xpoll) (begin n i k limit room : ℕ)
    → k ≤ n
    → limit ≡ i + k
    → (scan xp begin n i limit true room).1 ≡ first_unseen xp room (places i k) limit
unfolding scan places first_unseen
next_up xp begin zero i zero limit room h e = omega arith
next_up xp begin zero i (suc k) limit room h e = ground arith
next_up xp begin (suc n) i zero limit room h e = rw (ge→ltb i limit (omega arith)) (omega arith)
next_up xp begin (suc n) i (suc k) limit zero h e = rw (lt→ltb i limit (omega arith)) refl
next_up xp begin (suc n) i (suc k) limit (suc r) h e =
    let ih = λ (q : ℕ). next_up xp begin n (i + 1) k limit q (omega arith) (omega arith) in
    elim (Bool-cases (is_ready xp i)) [
      | inl y ↦
          (rw
            (lt→ltb i limit (omega arith), and_false, lt→ltb 0 (suc r) (omega arith), y, pred_suc r)
            (ih r ∙ sym (first_ready xp i r (places (i + 1) k) limit y)))
      | inr y ↦
          (rw (lt→ltb i limit (omega arith), and_false, lt→ltb 0 (suc r) (omega arith), y)
            (ih (suc r) ∙ sym (first_idle xp i r (places (i + 1) k) limit y)))
    ]

-- before the wrap, from a place other than the first
next_round :
    (xp : Xpoll) (begin n i k room : ℕ)
    → begin ≢ 0
    → xp.pfd_count ≡ i + suc k
    → suc k + begin ≤ n
    → (scan xp begin n i xp.pfd_count false room).1
      ≡ first_unseen xp room (places i (suc k) ++ places 0 begin) begin
unfolding scan places first_unseen
next_round xp begin zero i k room b e h = ground arith
next_round xp begin (suc n) i k zero b e h = rw (lt→ltb i xp.pfd_count (omega arith)) refl
next_round xp begin (suc n) i zero (suc r) b e h =
    let up = λ (q : ℕ). next_up xp begin n 0 begin begin q (omega arith) (omega arith) in
    elim (Bool-cases (is_ready xp i)) [
      | inl y ↦
          (rw
            (
              lt→ltb i xp.pfd_count (omega arith),
              le→leb xp.pfd_count (i + 1) (omega arith),
              ne→== begin 0 b,
              lt→ltb 0 (suc r) (omega arith),
              y,
              pred_suc r,
            )
            (up r ∙ sym (first_ready xp i r (places 0 begin) begin y)))
      | inr y ↦
          (rw
            (
              lt→ltb i xp.pfd_count (omega arith),
              le→leb xp.pfd_count (i + 1) (omega arith),
              ne→== begin 0 b,
              lt→ltb 0 (suc r) (omega arith),
              y,
            )
            (up (suc r) ∙ sym (first_idle xp i r (places 0 begin) begin y)))
    ]
next_round xp begin (suc n) i (suc k) (suc r) b e h =
    let ih = λ (q : ℕ). next_round xp begin n (i + 1) k q b (omega arith) (omega arith) in
    elim (Bool-cases (is_ready xp i)) [
      | inl y ↦
          (rw
            (
              lt→ltb i xp.pfd_count (omega arith),
              gt→leb xp.pfd_count (i + 1) (omega arith),
              lt→ltb 0 (suc r) (omega arith),
              y,
              pred_suc r,
            )
            (ih r ∙ sym (first_ready xp i r (places (i + 1) (suc k) ++ places 0 begin) begin y)))
      | inr y ↦
          (rw
            (
              lt→ltb i xp.pfd_count (omega arith),
              gt→leb xp.pfd_count (i + 1) (omega arith),
              lt→ltb 0 (suc r) (omega arith),
              y,
            )
            (ih (suc r)
              ∙ sym (first_idle xp i r (places (i + 1) (suc k) ++ places 0 begin) begin y)))
    ]

-- from the first place
next_first :
    (xp : Xpoll) (n i k room : ℕ)
    → xp.pfd_count ≡ i + k
    → k ≤ n
    → (scan xp 0 n i xp.pfd_count false room).1 ≡ first_unseen xp room (places i k) xp.pfd_count
unfolding scan places first_unseen
next_first xp zero i zero room e h = omega arith
next_first xp zero i (suc k) room e h = ground arith
next_first xp (suc n) i zero room e h = rw (ge→ltb i xp.pfd_count (omega arith)) (omega arith)
next_first xp (suc n) i (suc k) zero e h = rw (lt→ltb i xp.pfd_count (omega arith)) refl
next_first xp (suc n) i (suc k) (suc r) e h =
    let ih = λ (q : ℕ). next_first xp n (i + 1) k q (omega arith) (omega arith) in
    elim (Bool-cases (is_ready xp i)) [
      | inl y ↦
          (rw
            (
              lt→ltb i xp.pfd_count (omega arith),
              and_false,
              lt→ltb 0 (suc r) (omega arith),
              y,
              pred_suc r,
            )
            (ih r ∙ sym (first_ready xp i r (places (i + 1) k) xp.pfd_count y)))
      | inr y ↦
          (rw (lt→ltb i xp.pfd_count (omega arith), and_false, lt→ltb 0 (suc r) (omega arith), y)
            (ih (suc r) ∙ sym (first_idle xp i r (places (i + 1) k) xp.pfd_count y)))
    ]

-- what the call stores
abbrev pub stored : ℕ → ℕ → ℕ
stored count i = if leb count i then 0 else i

unfoldable AreBelow : ℕ → List ℕ → Type 0
AreBelow count [] = Unit
AreBelow count (i ∷ is) = (i < count) × AreBelow count is

places-AreBelow : (count i k : ℕ) → i + k ≤ count → AreBelow count (places i k)
unfolding AreBelow places
places-AreBelow count i zero h = tt
places-AreBelow count i (suc k) h = ((omega arith), places-AreBelow count (i + 1) k (omega arith))

append-AreBelow :
    (count : ℕ) (xs ys : List ℕ) → AreBelow count xs → AreBelow count ys → AreBelow count (xs ++ ys)
unfolding AreBelow
append-AreBelow count [] ys a b = b
append-AreBelow count (x ∷ xs) ys (lt, a) b = (lt, append-AreBelow count xs ys a b)

stored-first_unseen :
    (xp : Xpoll) (count room : ℕ) (is : List ℕ) (last : ℕ)
    → AreBelow count is
    → stored count (first_unseen xp room is last) ≡ first_unseen xp room is (stored count last)
unfolding first_unseen AreBelow
stored-first_unseen xp count zero [] last below = refl
stored-first_unseen xp count (suc r) [] last below = refl
stored-first_unseen xp count zero (i ∷ is) last (lt, below) = rw (gt→leb count i lt) refl
stored-first_unseen xp count (suc r) (i ∷ is) last (lt, below) =
    stored-first_unseen xp count (if is_ready xp i then r else suc r) is last below

pub append_nil {ℓ} : {A : Type ℓ} (xs : List A) → xs ++ [] ≡ xs
append_nil [] = refl
append_nil (x ∷ xs) = ap (λ ys. x ∷ ys) (append_nil xs)

pub sub_zero : (n : ℕ) → n - 0 ≡ n
sub_zero n = omega arith

first_places : (xp : Xpoll) → places 0 xp.pfd_count ≡ places_from xp 0
unfolding places_from places
first_places xp =
    ap (places 0) (sym (sub_zero xp.pfd_count)) ∙ sym (append_nil (places 0 (xp.pfd_count - 0)))

places_from-AreBelow :
    (xp : Xpoll) (begin : ℕ) → begin < xp.pfd_count → AreBelow xp.pfd_count (places_from xp begin)
unfolding places_from
places_from-AreBelow xp begin h =
    append-AreBelow xp.pfd_count (places begin (xp.pfd_count - begin)) (places 0 begin)
      (places-AreBelow xp.pfd_count begin (xp.pfd_count - begin) (omega arith))
      (places-AreBelow xp.pfd_count 0 begin (omega arith))

some_places :
    (xp : Xpoll) (begin k : ℕ)
    → suc k ≡ xp.pfd_count - begin
    → places begin (suc k) ++ places 0 begin ≡ places_from xp begin
unfolding places_from
some_places xp begin k e = ap (λ n. places begin n ++ places 0 begin) e

-- what the scan leaves to be stored
stored_first :
    (xp : Xpoll) (room : ℕ)
    → 0 < xp.pfd_count
    → stored xp.pfd_count (scan xp 0 xp.pfd_count 0 xp.pfd_count false room).1
      ≡ first_unseen xp room (places_from xp 0) 0
stored_first xp room h =
    ap (stored xp.pfd_count) (
      next_first xp xp.pfd_count 0 xp.pfd_count room (omega arith) (omega arith)
      ∙ ap (λ is. first_unseen xp room is xp.pfd_count) (first_places xp))
    ∙ stored-first_unseen xp xp.pfd_count room (places_from xp 0) xp.pfd_count
        (places_from-AreBelow xp 0 h)
    ∙ ap (first_unseen xp room (places_from xp 0))
        (rw (le→leb xp.pfd_count xp.pfd_count (omega arith)) refl)

stored_round :
    (xp : Xpoll) (begin room : ℕ)
    → begin < xp.pfd_count
    → begin ≢ 0
    → stored xp.pfd_count (scan xp begin xp.pfd_count begin xp.pfd_count false room).1
      ≡ first_unseen xp room (places_from xp begin) begin
stored_round xp begin room h ne =
    let k = xp.pfd_count - begin - 1 in
    ap (stored xp.pfd_count) (
      next_round xp begin xp.pfd_count begin k room ne (omega arith) (omega arith)
      ∙ ap (λ is. first_unseen xp room is begin) (some_places xp begin k (omega arith)))
    ∙ stored-first_unseen xp xp.pfd_count room (places_from xp begin) begin
        (places_from-AreBelow xp begin h)
    ∙ ap (first_unseen xp room (places_from xp begin)) (rw (gt→leb xp.pfd_count begin h) refl)

pub stored_lem :
    (xp : Xpoll) (begin room : ℕ)
    → begin < xp.pfd_count
    → stored xp.pfd_count (scan xp begin xp.pfd_count begin xp.pfd_count false room).1
      ≡ first_unseen xp room (places_from xp begin) begin
stored_lem xp zero room h = stored_first xp room h
stored_lem xp (suc b) room h = stored_round xp (suc b) room h (omega arith)
