-- ===== src/Uring/Request.antt =====
-- The requests of src/event/xio_uring.c. What liburing answers is an argument.
use freehttpd.Base.{
  ℕ, Bool, true, List, [], ◌∷◌, ◌++◌, Option, none, some, ◌==◌, if◌then◌else◌, update,
}
use freehttpd.Uring.Data.{
  OpData, Prep, Sqe, Xio, data_get, data_disown, xio_ring_buf_bgid_default, read, write, recv, send,
  accept, prep_read, prep_write, prep_recv, prep_send, prep_accept,
}

-- What a request meets: what `malloc` returns, whether `io_uring_get_sqe` gives an entry at once
-- and after `io_uring_submit`, and which entries that call leaves in the queue.
pub record Env : Type 0 where
  pub malloc : ℕ
  pub get_sqe : Bool
  pub get_sqe_again : Bool
  pub submit : List Sqe → List Sqe

-- the return values
pub data Code : Type 0 where
  zero enomem eagain : Code

-- `fh_xio_ring_get_sqe`: whether there is an entry
unfoldable pub ring_get_sqe : Env → Xio → Bool × Xio
ring_get_sqe env xio =
    if env.get_sqe
    then (true, xio)
    else (env.get_sqe_again, record xio { sqes = env.submit xio.sqes })

-- `fh_xio_request_prep_common`: the record, 0 where there is none
unfoldable pub request_prep_common : Env → Xio → Code × (ℕ × Xio)
unfolding ring_get_sqe
request_prep_common env xio =
    let (p, got) = data_get xio env.malloc in
    if p == 0
    then (Code.enomem, (0, got))
    else (let (ok, asked) = ring_get_sqe env got in
        if ok then (Code.zero, (p, asked)) else (Code.eagain, (0, data_disown asked p)))

-- `fh_xio_request_setup_sqe_common`
unfoldable pub setup_sqe_common : ℕ → Option ℕ
setup_sqe_common buf = if buf == 0 then some xio_ring_buf_bgid_default else none

-- the part that the requests share after `fh_xio_request_prep_common`: its code is returned, or
-- the record is filled and the entry is queued
unfoldable pub fill : ℕ → OpData → Prep → Option ℕ → Code × (ℕ × Xio) → Code × Xio
fill udata opdata prep group (Code.zero, (p, ready)) = (
  Code.zero,
  record ready {
    records = update ready.records p (record { udata = udata; opdata = opdata });
    sqes = ready.sqes ++ (record { prep = prep; user_data = p; buf_group = group } ∷ []);
  },
)
fill udata opdata prep group (Code.enomem, (p, ready)) = (Code.enomem, ready)
fill udata opdata prep group (Code.eagain, (p, ready)) = (Code.eagain, ready)

-- a request
unfoldable pub request : Env → Xio → ℕ → OpData → Prep → Option ℕ → Code × Xio
unfolding request_prep_common fill
request env xio udata opdata prep group = fill udata opdata prep group (request_prep_common env xio)

-- `fh_xio_request_read`
unfoldable pub request_read : Env → Xio → ℕ → ℕ → ℕ → ℕ → ℕ → Code × Xio
unfolding request setup_sqe_common
request_read env xio udata fd buf size offset =
    request env xio udata (read fd buf size) (prep_read fd buf size offset) (setup_sqe_common buf)

-- `fh_xio_request_write`
unfoldable pub request_write : Env → Xio → ℕ → ℕ → ℕ → ℕ → ℕ → Code × Xio
unfolding request setup_sqe_common
request_write env xio udata fd buf size offset =
    request env xio udata (write fd buf size) (prep_write fd buf size offset) (setup_sqe_common buf)

-- `fh_xio_request_recv`
unfoldable pub request_recv : Env → Xio → ℕ → ℕ → ℕ → ℕ → ℕ → Code × Xio
unfolding request setup_sqe_common
request_recv env xio udata fd buf size flags =
    request env xio udata (recv fd buf size flags) (prep_recv fd buf size flags)
      (setup_sqe_common buf)

-- `fh_xio_request_send`
unfoldable pub request_send : Env → Xio → ℕ → ℕ → ℕ → ℕ → ℕ → Code × Xio
unfolding request setup_sqe_common
request_send env xio udata fd buf size flags =
    request env xio udata (send fd buf size flags) (prep_send fd buf size flags)
      (setup_sqe_common buf)

-- `fh_xio_request_accept`
unfoldable pub request_accept : Env → Xio → ℕ → ℕ → ℕ → ℕ → ℕ → Code × Xio
unfolding request
request_accept env xio udata fd addr addr_len flags =
    request env xio udata (accept fd addr addr_len flags) (prep_accept fd addr addr_len flags) none
