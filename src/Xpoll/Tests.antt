-- ===== src/Xpoll/Tests.antt =====
-- Runs of the poll(2) list of src/event/xpoll.c.
use freehttpd.Base.{◌+◌, ◌≡◌, refl, true, none, some, [], ◌∷◌, ◌==◌, if◌then◌else◌, arith}
use freehttpd.Htable.Table.{uint32_max}
use freehttpd.Xpoll.Poll.{Xpoll, Memory, done, ctl_add, ctl_mod, ctl_del, new_table_cap}
use freehttpd.Xpoll.Valid.{IsConsistent, IsAmple, IsAbsent, IsAdded}
use freehttpd.Xpoll.Laws.{IsListed, IsModified, ctl_add_lem, ctl_add_overrun, ctl_mod_lem}
use freehttpd.Xpoll.RemoveLast.{ctl_del_last}
use freehttpd.Xpoll.Remove.{ctl_del_stale}
use freehttpd.Xpoll.Wait.{event_at, is_ready, wait, polled}
use freehttpd.Xpoll.WaitNext.{places_from, first_unseen}
use freehttpd.Xpoll.WaitLaws.{wait_lem, take, ready_from, round_from}

abbrev ample : Memory
ample = record { table_ok = true; list_ok = true; info_ok = true }

ample-IsAmple : IsAmple ample
ample-IsAmple = record { table_ok = refl; list_ok = refl; info_ok = refl }

-- descriptors 3 and 5, for reading
abbrev two_places : Xpoll
two_places = record {
  pfd_count = 2;
  pfd_cap = 16;
  fd_table_cap = 16;
  pfd_last_wait_index = 1;
  fd_table = λ i. if i == 3 then 0 else if i == 5 then 1 else uint32_max;
  pfd_list = λ i. record { fd = if i == 0 then 3 else 5; events = 1; revents = 0 };
  fd_info_list = λ i. 100 + i;
}

two_places-IsConsistent : IsConsistent two_places
two_places-IsConsistent = record {
  fits = omega arith;
  small = omega arith;
  listed = λ i lt. ground arith;
  named = λ fd lt ne. ground arith;
}

three-IsListed : IsListed two_places 3
unfolding IsListed
three-IsListed = ((omega arith), (omega arith))

seven-IsAbsent : IsAbsent two_places 7
unfolding IsAbsent
seven-IsAbsent lt = refl

ctl_add_lem_example :
    (xp : Xpoll) × ((ctl_add ample two_places 7 102 1 ≡ some (done xp))
      × IsAdded two_places 7 102 1 xp)
ctl_add_lem_example =
    ctl_add_lem ample two_places 7 102 1 ample-IsAmple two_places-IsConsistent (omega arith)
      seven-IsAbsent (λ out. absurd (omega arith))

ctl_mod_lem_example :
    (xp : Xpoll) × ((ctl_mod two_places 3 200 4 ≡ some (done xp))
      × IsModified two_places 3 200 4 xp)
ctl_mod_lem_example = ctl_mod_lem two_places 3 200 4 two_places-IsConsistent three-IsListed

ctl_del_stale_example :
    (xp : Xpoll) × ((ctl_del ample two_places 3 ≡ some (done xp))
      × ((xp.pfd_list 0 ≡ two_places.pfd_list 1)
          × ((xp.fd_table 5 ≡ xp.pfd_count) × ¬ (IsConsistent xp))))
ctl_del_stale_example =
    ctl_del_stale ample two_places 3 two_places-IsConsistent three-IsListed (omega arith)

-- descriptor 20 is outside a table of 0 cells, which grows to 16
abbrev created_list : Xpoll
created_list = record two_places {
  pfd_count = 0;
  pfd_cap = 0;
  fd_table_cap = 0;
  pfd_last_wait_index = 0;
}

new_table_cap_20 : new_table_cap 0 20 ≡ 16
unfolding new_table_cap
new_table_cap_20 = refl

ctl_add_overrun_example : ctl_add ample created_list 20 102 1 ≡ none
ctl_add_overrun_example =
    ctl_add_overrun ample created_list 20 102 1 ample-IsAmple (omega arith)
      (rw (new_table_cap_20) (omega arith))

-- both places are ready, the second one is read first
wait_lem_example :
    ((wait two_places (some (λ i. 1)) 2).0
      ≡ some (take 2 (round_from (polled two_places (λ i. 1)) 1)))
    × ((wait two_places (some (λ i. 1)) 2).1.pfd_last_wait_index
        ≡ first_unseen (polled two_places (λ i. 1)) 2 (places_from two_places 1) 1)
wait_lem_example = wait_lem two_places (λ i. 1) 2 (omega arith) (omega arith)

two_ready :
    take 2 (round_from (polled two_places (λ i. 1)) 1)
    ≡ record { events = 1; fd = 5; udata = 101 } ∷ (record { events = 1; fd = 3; udata = 100 } ∷ [])
unfolding take ready_from is_ready event_at
two_ready = refl

five-IsListed : IsListed two_places 5
unfolding IsListed
five-IsListed = ((omega arith), (omega arith))

ctl_del_last_example :
    (xp : Xpoll) × ((ctl_del ample two_places 5 ≡ some (done xp)) × IsConsistent xp)
ctl_del_last_example = ctl_del_last ample two_places 5 two_places-IsConsistent five-IsListed refl
