-- ===== src/Xio/Refused.antt =====
-- The registration of a request by `fh_xio_request_prep_with_size` of src/event/xio_xpoll.c.
use freehttpd.Base.{
  ℕ, ◌+◌, ◌-◌, ◌≡◌, ◌≢◌, refl, ◌∙◌, true, false, none, some, arith, ne→==, lt→ltb, update,
  update_self, update_ne, eq_or_ne, inl, inr, ap,
}
use freehttpd.Htable.Table.{Keys}
use freehttpd.Htable.Ops.{get}
use freehttpd.Xio.Pool.{acquire, release, xio_xpoll_max_task_count}
use freehttpd.Xio.PoolLaws.{IsPool}
use freehttpd.Xio.Prep.{
  Context, PrepType, prep_in, prep_out, Env, has_events, push_task, add_events, register, give_back,
  find_state, find_buffer, prep_task, request_prep,
}

-- A request that takes a slice is left out: where all slices are free, the undo of a refused one meets
-- the assertion of `fh_xio_release_slice`.

-- what the request finds: a descriptor with the state `state`, which does not wait for the events yet
pub record IsKnown (keys : Keys ℕ) (xio : Context) (fd state : ℕ) (type : PrepType) : Type 0 where
  pub found : get keys xio.fd_state_table fd ≡ some (state + 1)
  pub waits_not : has_events (xio.fd_state_list state) type ≡ false
  pub tasks : IsPool xio.task_pool
  pub has_task : xio.task_pool.top ≢ 0

-- the task of the request
abbrev pub next_task : Context → ℕ
next_task xio = xio.task_pool.free (xio.task_pool.top - 1)

module _ (keys : Keys ℕ) (env : Env) (xio : Context) (op fd udata buf size state : ℕ)
    (type : PrepType) where
  -- the context with the task of the request
  abbrev filled : Context
  filled = record xio {
    task_pool = record xio.task_pool { top = xio.task_pool.top - 1 };
    task_list =
        update xio.task_list (next_task xio)
          (record (xio.task_list (next_task xio)) { op = op; bid = none; udata = udata });
  }

  found_lem :
      IsKnown keys xio fd state type
      → find_state keys env filled fd ≡ some (some (state, false), filled)
  unfolding find_state
  found_lem k =
      let nz : state + 1 ≢ 0 = omega arith in
      let back : state + 1 - 1 ≡ state = omega arith in rw (k.found, ne→== (state + 1) 0 nz, back)

  abbrev held : Context
  held = record xio { task_pool = record xio.task_pool { top = xio.task_pool.top - 1 } }

  acquire_eq :
      xio.task_pool.top ≢ 0
      → acquire xio.task_pool
        ≡ (some (next_task xio), record xio.task_pool { top = xio.task_pool.top - 1 })
  unfolding acquire
  acquire_eq ne = rw (ne→== xio.task_pool.top 0 ne)

  buffer_eq : buf ≢ 0 → find_buffer held buf size ≡ some (some none, held)
  unfolding find_buffer
  buffer_eq ne = rw (ne→== buf 0 ne)

  task_eq :
      IsKnown keys xio fd state type
      → prep_task keys env held op type fd udata (next_task xio) none
        ≡ register keys env filled fd type (next_task xio) none (state, false)
  unfolding prep_task
  task_eq k = rw (found_lem k)

  prep_lem :
      IsKnown keys xio fd state type
      → buf ≢ 0
      → request_prep keys env xio op type fd udata buf size
        ≡ register keys env filled fd type (next_task xio) none (state, false)
  unfolding request_prep
  prep_lem k ne =
      rw (ne→== buf 0 ne, acquire_eq k.has_task, acquire_eq k.has_task, ne→== buf 0 ne) (task_eq k)

  -- the task of the request goes where it came from
  pool_back :
      xio.task_pool.top ≢ 0
      → (i : ℕ)
      → update xio.task_pool.free (xio.task_pool.top - 1) (next_task xio) i ≡ xio.task_pool.free i
  pool_back ne i = elim (eq_or_ne (xio.task_pool.top - 1) i) [
    | inl e ↦
        update_self xio.task_pool.free (xio.task_pool.top - 1) i (next_task xio) e
        ∙ ap xio.task_pool.free e
    | inr h ↦ update_ne xio.task_pool.free (xio.task_pool.top - 1) i (next_task xio) h
  ]

  give_back_eq :
      IsPool xio.task_pool
      → xio.task_pool.top ≢ 0
      → (xio' : Context) × (give_back filled (next_task xio) none ≡ some xio')
        × (xio'.task_pool.top ≡ xio.task_pool.top)
        × ((i : ℕ) → xio'.task_pool.free i ≡ xio.task_pool.free i)
        × (xio'.fd_state_list ≡ xio.fd_state_list)
  unfolding give_back release
  give_back_eq pool ne =
      let fits = pool.fits in
      (
        record filled {
          task_pool = record {
            free = update xio.task_pool.free (xio.task_pool.top - 1) (next_task xio);
            top = xio.task_pool.top - 1 + 1;
          };
        },
        (rw (lt→ltb (xio.task_pool.top - 1) xio_xpoll_max_task_count (omega arith))),
        (omega arith),
        pool_back ne,
        refl,
      )

  pool_push :
      (kind : PrepType)
      → (push_task
          (record filled {
            fd_state_list =
                update xio.fd_state_list state (add_events (xio.fd_state_list state) type);
          })
          state
          (next_task xio)
          kind).task_pool.top
        ≡ xio.task_pool.top - 1
  unfolding push_task
  pool_push prep_in = refl
  pool_push prep_out = refl

  accepts :
      has_events (xio.fd_state_list state) type ≡ false
      → env.modify_fd ≡ false
      → (xio' : Context) × (register keys env filled fd type (next_task xio) none (state, false)
          ≡ some (some (record { task = next_task xio; slice = none }), xio'))
        × (xio'.task_pool.top ≡ xio.task_pool.top - 1)
  unfolding register
  accepts waits m = (
    push_task
        (record filled {
          fd_state_list =
              update xio.fd_state_list state (add_events (xio.fd_state_list state) type);
        })
        state (next_task xio) type,
    (rw (waits, m)),
    pool_push type,
  )

  refuse_run :
      (xio' : Context)
      → give_back filled (next_task xio) none ≡ some xio'
      → has_events (xio.fd_state_list state) type ≡ false
      → env.modify_fd ≡ true
      → register keys env filled fd type (next_task xio) none (state, false) ≡ some (none, xio')
  unfolding register
  refuse_run xio' run waits m = rw (waits, m, run)

  refuses :
      IsKnown keys xio fd state type
      → env.modify_fd ≡ true
      → (xio' : Context) × (register keys env filled fd type (next_task xio) none (state, false)
          ≡ some (none, xio'))
        × (xio'.task_pool.top ≡ xio.task_pool.top)
        × ((i : ℕ) → xio'.task_pool.free i ≡ xio.task_pool.free i)
        × (xio'.fd_state_list ≡ xio.fd_state_list)
  refuses k m =
      let (xio', run, top, free, states) = give_back_eq k.tasks k.has_task in
      (xio', refuse_run xio' run k.waits_not m, top, free, states)

  -- A request with the caller's own buffer on a descriptor that is known and does not wait for its
  -- events yet, when there is a free task: if `xpoll_modify_fd` returns true, which is its success,
  -- the request is refused, and the pool of tasks and the states of the descriptors are as they were;
  -- if it returns false, its failure, the request is accepted with the task on top of the pool.
  pub request_prep_lem :
      IsKnown keys xio fd state type
      → buf ≢ 0
      → (env.modify_fd ≡ true
          → (xio' : Context) × (request_prep keys env xio op type fd udata buf size
              ≡ some (none, xio'))
            × (xio'.task_pool.top ≡ xio.task_pool.top)
            × ((i : ℕ) → xio'.task_pool.free i ≡ xio.task_pool.free i)
            × (xio'.fd_state_list ≡ xio.fd_state_list))
        × (env.modify_fd ≡ false
            → (xio' : Context) × (request_prep keys env xio op type fd udata buf size
                ≡ some (some (record { task = next_task xio; slice = none }), xio'))
              × (xio'.task_pool.top ≡ xio.task_pool.top - 1))
  request_prep_lem k ne = (
    (λ m.
        let (xio', run, top, free, states) = refuses k m in
        (xio', prep_lem k ne ∙ run, top, free, states)),
    (λ m. let (xio', run, top) = accepts k.waits_not m in (xio', prep_lem k ne ∙ run, top)),
  )
