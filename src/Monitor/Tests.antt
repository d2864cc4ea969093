-- ===== src/Monitor/Tests.antt =====
-- The theorems on monitors at a short run of two threads.
use jvm_rs.Prelude.{◌≡◌, refl, true, [], arith}
use jvm_rs.Types.Value.{heap, ok}
use jvm_rs.Monitor.{
  entry, put_entry, enter_monitor, exit_monitor, wait_on_monitor, newly_available, notify_monitor,
}
use jvm_rs.Monitor.Entries.{exit-enter}
use jvm_rs.Monitor.Protocol.{Reach-IsSound}
use jvm_rs.Monitor.Threads.{
  System, start, enter, wait, notify, Reach, here, next, after_wait, IsSound, sleeping_on,
}

-- Thread 1 enters monitor 9 and waits on it; thread 2 enters it and notifies.
abbrev entered : System
entered = record start { states = (enter_monitor 1 (heap 9) []).1 }

abbrev waiting : System
waiting = record {
  states = (wait_on_monitor 1 (heap 9) entered.states).1;
  sleepers = after_wait 1 9 (wait_on_monitor 1 (heap 9) entered.states).0 [];
}

abbrev taken : System
taken = record waiting { states = (enter_monitor 2 (heap 9) waiting.states).1 }

abbrev notified : System
notified = record taken { states = (notify_monitor 2 (heap 9) true taken.states).1 }

notified_reached : Reach notified
notified_reached =
    next
      (next (next (next here (enter 1 9 (omega arith))) (wait 1 9 (omega arith)))
        (enter 2 9 (omega arith)))
      (notify 2 9 true (omega arith))

one_sleeper : (entry 9 notified.states).pending_notifies ≡ 1
unfolding entry put_entry enter_monitor wait_on_monitor notify_monitor newly_available
one_sleeper = refl

Reach-IsSound_example : IsSound (entry 9 notified.states) (sleeping_on 9 notified.sleepers)
unfolding notified_reached entry put_entry enter_monitor wait_on_monitor
Reach-IsSound_example = Reach-IsSound notified_reached (omega arith) 9

exit-enter_example :
    let states' = (enter_monitor 2 (heap 9) waiting.states).1 in
    let (r, states'') = exit_monitor 2 (heap 9) states' in
    (r ≡ ok tt) × (entry 9 states'' ≡ entry 9 waiting.states)
unfolding entry put_entry enter_monitor wait_on_monitor
exit-enter_example = exit-enter 2 9 9 waiting.states refl (omega arith) (λ e. refl)
