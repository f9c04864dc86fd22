-- ===== src/Uring/FreeWalk.antt =====
-- The walk of `fh_xio_free` in src/event/xio_uring.c over the free list.
use freehttpd.Base.{ℕ, suc, ◌+◌, ◌≡◌, ◌≢◌, refl, sym, ◌∙◌, ap, List, [], ◌∷◌, ◌++◌, arith, ne→==}
use freehttpd.Uring.Data.{Xio, free_list}
use freehttpd.Uring.Buffers.{length}
use freehttpd.Uring.FreeList.{IsLinked, IsStack}

-- the list backwards
unfoldable pub reverse : List ℕ → List ℕ
reverse [] = []
reverse (x ∷ xs) = reverse xs ++ (x ∷ [])

append_assoc : (xs ys zs : List ℕ) → (xs ++ ys) ++ zs ≡ xs ++ (ys ++ zs)
append_assoc [] ys zs = refl
append_assoc (x ∷ xs) ys zs = ap (λ r. x ∷ r) (append_assoc xs ys zs)

append_nil : (xs : List ℕ) → xs ++ [] ≡ xs
append_nil [] = refl
append_nil (x ∷ xs) = ap (λ r. x ∷ r) (append_nil xs)

zero_add : (k : ℕ) → 0 + k ≡ k
zero_add k = omega arith

shift : (n k : ℕ) → n + 1 + k ≡ n + suc k
shift n k = omega arith

walk_step :
    (xio : Xio) (k x : ℕ) → x ≢ 0 → free_list xio (suc k) x ≡ x ∷ free_list xio k (xio.next x)
unfolding free_list
walk_step xio k x h = rw (ne→== x 0 h)

walk_end : (xio : Xio) (k : ℕ) → free_list xio (suc k) 0 ≡ []
unfolding free_list
walk_end xio k = refl

-- from the head, the walk meets the records in order and goes on at `n`
walk_linked :
    (xio : Xio) (k n p : ℕ) (xs : List ℕ)
    → IsLinked xio n p xs
    → free_list xio (length xs + k) xio.data_head ≡ reverse xs ++ free_list xio k n
unfolding IsLinked length reverse
walk_linked xio k n p [] (e, h) =
    ap (λ q. free_list xio (0 + k) q) h ∙ ap (λ f. free_list xio f n) (zero_add k)
walk_linked xio k n p (x ∷ xs) (e, (ne, (next, (fresh, rest)))) =
    ap (λ f. free_list xio f xio.data_head) (shift (length xs) k)
    ∙ walk_linked xio (suc k) x (xio.prev x) xs rest
    ∙ ap (λ r. reverse xs ++ r) (walk_step xio k x ne ∙ ap (λ q. x ∷ free_list xio k q) next)
    ∙ sym (append_assoc (reverse xs) (x ∷ []) (free_list xio k n))

-- With a round for each record and one more, the walk of `fh_xio_free` over a free list that
-- holds the records of a stack frees each of them, the oldest first.
pub free_list_lem :
    (xio : Xio) (xs : List ℕ)
    → IsStack xio xs
    → free_list xio (xio.data_count + 1) xio.data_head ≡ reverse xs
unfolding IsStack
free_list_lem xio xs (l, c) =
    ap (λ f. free_list xio (f + 1) xio.data_head) c
    ∙ walk_linked xio 1 0 xio.data_tail xs l
    ∙ ap (λ r. reverse xs ++ r) (walk_end xio 0)
    ∙ append_nil (reverse xs)
