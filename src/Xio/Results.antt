-- ===== src/Xio/Results.antt =====
-- The delivery of errors by `fh_xio_wait` of src/event/xio_xpoll.c.
use freehttpd.Base.{
  ℕ, zero, suc, Bool, true, false, List, [], ◌∷◌, Option, none, some, update, ◌>>=◌,
}
use freehttpd.Xio.Pool.{release}
use freehttpd.Xio.Prep.{Context, FdState, PrepType, prep_in, prep_out}

-- `struct fh_xio_result` of an internal error: `res` is -1 and `buf` is NULL
pub record ErrorResult : Type 0 where
  pub op : ℕ
  pub udata : ℕ

-- the head of a list of tasks
unfoldable pub head : FdState → PrepType → Option ℕ
head s prep_in = s.task_in_head
head s prep_out = s.task_out_head

unfoldable pub set_head : FdState → PrepType → Option ℕ → FdState
set_head s prep_in h = record s { task_in_head = h }
set_head s prep_out h = record s { task_out_head = h }

-- the results of a loop, whether it stopped since `results` is full, and the context
pub record Drained : Type 0 where
  pub results : List ErrorResult
  pub full : Bool
  pub xio : Context

-- The loop over the tasks of a state from `task`, with `room` results left. Each round but the
-- last one fills a result, so `room` bounds the rounds.
unfoldable pub drain : Context → ℕ → PrepType → ℕ → Option ℕ → Option Drained
unfolding set_head
drain xio state type room none = some (record { results = []; full = false; xio = xio })
drain xio state type zero (some task) = some (record { results = []; full = true; xio = xio })
drain xio state type (suc room) (some task) =
    let t = xio.task_list task in
    (do
      tasks ← release xio.task_pool task
      let popped = record xio {
        fd_state_list =
            update xio.fd_state_list state (set_head (xio.fd_state_list state) type t.next);
        task_pool = tasks;
      }
      rest ← drain popped state type room t.next
      some (record rest { results = record { op = t.op; udata = t.udata } ∷ rest.results }))
