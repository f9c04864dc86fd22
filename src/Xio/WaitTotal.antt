-- ===== src/Xio/WaitTotal.antt =====
-- The whole call of `fh_xio_wait` of src/event/xio_xpoll.c.
use freehttpd.Base.{ℕ, ◌≡◌, ◌≢◌, true, List, [], ◌∷◌, ◌++◌, if◌then◌else◌}
use freehttpd.Xio.Pool.{Pool}
use freehttpd.Xio.Prep.{Context, prep_in, prep_out}
use freehttpd.Xio.Results.{head, Drained}
use freehttpd.Xio.ResultLaws.{IsQueue}
use freehttpd.Xio.Wait.{StateEvent}
use freehttpd.Xio.WaitLaws.{IsDelivered, IsIdle}

-- no event is about the state `s`
unfoldable pub IsApart : ℕ → List StateEvent → Type 0
IsApart s [] = Unit
IsApart s (e ∷ es) = (s ≢ e.state) × IsApart s es

-- no two events are about one state
unfoldable pub AreApart : List StateEvent → Type 0
unfolding IsApart
AreApart [] = Unit
AreApart (e ∷ es) = IsApart e.state es × AreApart es

module _ (ins outs : ℕ → List ℕ) where
  -- each state of an error has the tasks `ins` and `outs`
  unfoldable pub AreQueued : Context → List StateEvent → Type 0
  AreQueued xio [] = Unit
  AreQueued xio (e ∷ es) =
      (e.is_error ≡ true
        → IsQueue xio (head (xio.fd_state_list e.state) prep_in) (ins e.state)
          × IsQueue xio (head (xio.fd_state_list e.state) prep_out) (outs e.state))
      × AreQueued xio es

  -- the tasks of the states of the errors, in order
  unfoldable pub failed_tasks : List StateEvent → List ℕ
  failed_tasks [] = []
  failed_tasks (e ∷ es) =
      if e.is_error then (ins e.state ++ outs e.state) ++ failed_tasks es else failed_tasks es

  unfoldable pub AreIdle : Context → List StateEvent → Type 0
  AreIdle xio [] = Unit
  AreIdle xio (e ∷ es) = (e.is_error ≡ true → IsIdle xio e.state) × AreIdle xio es

  -- what the loop leaves
  pub record AreDelivered (xio : Context) (es : List StateEvent) (d : Drained) : Type 0 where
    pub delivered : IsDelivered xio (failed_tasks es) d
    pub idle : AreIdle d.xio es
    pub others : (o : ℕ) → IsApart o es → d.xio.fd_state_list o ≡ xio.fd_state_list o
