-- ===== src/Xio/WaitLaws.antt =====
-- What `fh_xio_wait` of src/event/xio_xpoll.c delivers for the events of one call.
use freehttpd.Base.{
  ℕ, ◌+◌, ◌-◌, ◌≤◌, ◌≡◌, ◌≢◌, refl, sym, ◌∙◌, ap, subst, false, List, [], ◌∷◌, ◌++◌, Option, none,
  some, update, arith,
}
use freehttpd.Xio.Pool.{Pool, xio_xpoll_max_task_count}
use freehttpd.Xio.Prep.{Context, prep_in, prep_out, Task}
use freehttpd.Xio.Results.{head, Drained, drain}
use freehttpd.Xio.ResultLaws.{IsQueue, length, errors, opposite, push_all, drain-IsDrained}
use freehttpd.Xio.Wait.{count_results, go_on, drain_state}

pub IsQueue-same :
    (xio xio' : Context) (h : Option ℕ) (ts : List ℕ)
    → xio'.task_list ≡ xio.task_list
    → IsQueue xio h ts
    → IsQueue xio' h ts
unfolding IsQueue
IsQueue-same xio xio' h [] same q = q
IsQueue-same xio xio' h (t ∷ ts) same (e, q) = (
  e,
  subst (λ (f : ℕ → Task). IsQueue xio' (f t).next ts) (sym same)
      (IsQueue-same xio xio' (xio.task_list t).next ts same q),
)

pub errors-same :
    (xio xio' : Context) (ts : List ℕ)
    → xio'.task_list ≡ xio.task_list
    → errors xio' ts ≡ errors xio ts
unfolding errors
errors-same xio xio' [] same = refl
errors-same xio xio' (t ∷ ts) same =
    ap (λ (f : ℕ → Task). record { op = (f t).op; udata = (f t).udata } ∷ errors xio' ts) same
    ∙ ap (λ es. record { op = (xio.task_list t).op; udata = (xio.task_list t).udata } ∷ es)
        (errors-same xio xio' ts same)

pub errors-append :
    (xio : Context) (ts us : List ℕ) → errors xio (ts ++ us) ≡ errors xio ts ++ errors xio us
unfolding errors
errors-append xio [] us = refl
errors-append xio (t ∷ ts) us =
    ap (λ es. record { op = (xio.task_list t).op; udata = (xio.task_list t).udata } ∷ es)
      (errors-append xio ts us)

pub length-append : (ts us : List ℕ) → length (ts ++ us) ≡ length ts + length us
unfolding length
length-append [] us = omega arith
length-append (t ∷ ts) us = let ih = length-append ts us in omega arith

pub count-errors : (xio : Context) (ts : List ℕ) → count_results (errors xio ts) ≡ length ts
unfolding count_results errors length
count-errors xio [] = refl
count-errors xio (t ∷ ts) = ap (λ (n : ℕ). n + 1) (count-errors xio ts)

pub go_on_lem :
    (d : Drained) (room : ℕ) (next : Context → ℕ → Option Drained) (r : Drained)
    → d.full ≡ false
    → next d.xio (room - count_results d.results) ≡ some r
    → go_on d room next ≡ some (record r { results = d.results ++ r.results })
unfolding go_on
go_on_lem d room next r e run = rw (e, run)

pub push_all-append :
    (p : Pool) (ts us : List ℕ) → push_all p (ts ++ us) ≡ push_all (push_all p ts) us
unfolding push_all
push_all-append p [] us = refl
push_all-append p (t ∷ ts) us =
    push_all-append (record { free = update p.free p.top t; top = p.top + 1 }) ts us

-- What is left behind: the results are the errors of the tasks, and the pool is the earlier one
-- with the tasks released in order.
pub record IsDelivered (xio : Context) (ts : List ℕ) (d : Drained) : Type 0 where
  pub results : d.results ≡ errors xio ts
  pub not_full : d.full ≡ false
  pub top : d.xio.task_pool.top ≡ xio.task_pool.top + length ts
  pub pool : d.xio.task_pool ≡ push_all xio.task_pool ts
  pub tasks : d.xio.task_list ≡ xio.task_list

-- both lists of a state are empty
unfoldable pub IsIdle : Context → ℕ → Type 0
IsIdle xio s =
    (head (xio.fd_state_list s) prep_in ≡ none) × (head (xio.fd_state_list s) prep_out ≡ none)

pub drain_state_lem :
    (xio : Context) (s room : ℕ) (ins outs : List ℕ)
    → IsQueue xio (head (xio.fd_state_list s) prep_in) ins
    → IsQueue xio (head (xio.fd_state_list s) prep_out) outs
    → length ins + length outs ≤ room
    → xio.task_pool.top + (length ins + length outs) ≤ xio_xpoll_max_task_count
    → (d : Drained) × (drain_state xio s room ≡ some d)
      × IsDelivered xio (ins ++ outs) d
      × IsIdle d.xio s
      × ((o : ℕ) → s ≢ o → d.xio.fd_state_list o ≡ xio.fd_state_list o)
unfolding drain_state opposite IsIdle
drain_state_lem xio s room ins outs qi qo fits top =
    let (d, run, p) = drain-IsDrained xio s prep_in room ins qi (omega arith) (omega arith) in
    let other : head (d.xio.fd_state_list s) prep_out ≡ head (xio.fd_state_list s) prep_out =
      p.other_head in
    let q' =
      subst (λ (h : Option ℕ). IsQueue d.xio h outs) (sym other)
        (IsQueue-same xio d.xio (head (xio.fd_state_list s) prep_out) outs p.tasks qo) in
    let n : count_results d.results ≡ length ins =
      ap count_results p.results ∙ count-errors xio ins in
    let t = p.top in
    let (d', run', p') =
      drain-IsDrained d.xio s prep_out (room - count_results d.results) outs q' (omega arith)
        (omega arith) in
    let idle : head (d'.xio.fd_state_list s) prep_in ≡ none = p'.other_head ∙ p.emptied in
    let whole =
      go_on_lem d room
        (λ xio' room'. drain xio' s prep_out room' (head (xio'.fd_state_list s) prep_out)) d'
        p.not_full run' in
    (
      record d' { results = d.results ++ d'.results },
      (rw (run) whole),
      record {
        results =
            ap (λ es. es ++ d'.results) p.results
            ∙ ap (λ es. errors xio ins ++ es) (p'.results ∙ errors-same xio d.xio outs p.tasks)
            ∙ sym (errors-append xio ins outs);
        not_full = p'.not_full;
        top = let t' = p'.top in let l = length-append ins outs in omega arith;
        pool =
            p'.pool
            ∙ ap (λ (q : Pool). push_all q outs) p.pool
            ∙ sym (push_all-append xio.task_pool ins outs);
        tasks = p'.tasks ∙ p.tasks;
      },
      (idle, p'.emptied),
      λ o ne. p'.others o ne ∙ p.others o ne,
    )
