-- ===== src/Xpoll/Wait.antt =====
-- `xpoll_wait` of src/event/xpoll.c over poll(2), behind the call of poll: the scan of the list
-- from where the last call stopped, round its end.
use freehttpd.Base.{
  ℕ, zero, suc, ◌+◌, ◌-◌, ◌%◌, bit_and, bit_or, Bool, true, false, not, List, [], ◌∷◌, Option, none,
  some, ◌&&◌, ltb, leb, ◌==◌, if◌then◌else◌,
}
use freehttpd.Xpoll.Poll.{Xpoll}

-- `struct xpoll_event`
pub record Event : Type 0 where
  pub events : ℕ
  pub fd : ℕ
  pub udata : ℕ

-- POLLNVAL and XPOLL_ERROR (POLLERR)
abbrev pub pollnval : ℕ
pollnval = 0x20

abbrev pub xpoll_error : ℕ
xpoll_error = 0x8

-- the event of a place: POLLNVAL is reported as XPOLL_ERROR
unfoldable pub event_at : Xpoll → ℕ → Event
event_at xp i =
    let revents = (xp.pfd_list i).revents in
    record {
      events =
          if bit_and revents pollnval == 0
          then revents
          else bit_or (revents - bit_and revents pollnval) xpoll_error;
      fd = (xp.pfd_list i).fd;
      udata = xp.fd_info_list i;
    }

unfoldable pub is_ready : Xpoll → ℕ → Bool
is_ready xp i = not ((xp.pfd_list i).revents == 0)

-- The loop from `i` to `limit`, with `room` events left in `events_out`: the events, and the final
-- `i`. A round that the fuel does not reach returns what there is.
unfoldable pub scan : Xpoll → ℕ → ℕ → ℕ → ℕ → Bool → ℕ → List Event × ℕ
scan xp begin zero i limit rotated room = ([], i)
scan xp begin (suc n) i limit rotated room =
    let wraps = leb xp.pfd_count (i + 1) && (not rotated && not (begin == 0)) in
    let rest =
      scan xp begin n (if wraps then 0 else i + 1) (if wraps then begin else limit)
        (if wraps then true else rotated) (if is_ready xp i then room - 1 else room) in
    if ltb i limit && ltb 0 room
    then ((if is_ready xp i then event_at xp i ∷ rest.0 else rest.0), rest.1)
    else ([], i)

-- poll(2) writes the `revents` of each place
abbrev pub polled : Xpoll → (ℕ → ℕ) → Xpoll
polled xp revents = record xp { pfd_list = λ i. record (xp.pfd_list i) { revents = revents i } }

-- The scan after poll(2). Each place is visited at most once, so `pfd_count` rounds are enough.
unfoldable pub collect : Xpoll → ℕ → List Event × Xpoll
unfolding scan
collect xp max_events =
    let begin = xp.pfd_last_wait_index % xp.pfd_count in
    let r = scan xp begin xp.pfd_count begin xp.pfd_count false max_events in
    (r.0, record xp { pfd_last_wait_index = if leb xp.pfd_count r.1 then 0 else r.1 })

-- `xpoll_wait`: `none` is the return of a negative number. poll(2) fails, or answers the `revents`.
unfoldable pub wait : Xpoll → Option (ℕ → ℕ) → ℕ → Option (List Event) × Xpoll
unfolding collect
wait xp none max_events = (none, xp)
wait xp (some revents) max_events =
    if max_events == 0
    then (none, xp)
    else if xp.pfd_count == 0
    then (some [], xp)
    else (let r = collect (polled xp revents) max_events in (some r.0, r.1))
