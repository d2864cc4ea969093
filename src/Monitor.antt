-- ===== src/Monitor.antt =====
-- src/vm/thread.rs (MonitorState) and the monitor methods of src/vm/mod.rs. Every method holds the
-- lock of the table, which it gives up only where it waits on the condition variable; so each
-- function here is one uninterrupted section of a method, from the lock or a wake-up to the return or
-- the next wait. The `u64` thread ids are numbers, and a thread id is not zero. The counters are
-- `usize`: `+=` and `-=` wrap around, and where a guard keeps a counter from zero, `-=` is `-`.
pub mod Entries
pub mod Threads
pub mod Protocol
mod Tests
use jvm_rs.Prelude.{ℕ, ◌-◌, Bool, ◌&&◌, ◌||◌, List, [], ◌∷◌, ltb, ◌==◌, if◌then◌else◌, not}
use jvm_rs.Prelude.Words.{wrapping_inc, wrapping_dec}
use jvm_rs.Types.Value.{
  Reference, null, heap, VmError, Result, ok, err, panic, null_reference, unhandled_exception,
}

pub record MonitorState : Type 0 where
  pub lock_count : ℕ
  pub owner_thread : ℕ
  pub waiting_threads : ℕ
  pub pending_notifies : ℕ

-- `MonitorState::default()`
abbrev pub free_monitor : MonitorState
free_monitor = record {
  lock_count = 0;
  owner_thread = 0;
  waiting_threads = 0;
  pending_notifies = 0;
}

-- `HashMap<usize, MonitorState>`
abbrev pub Monitors : Type 0
Monitors = List (ℕ × MonitorState)

-- `states.entry(index).or_default()`, read
unfoldable pub entry : ℕ → Monitors → MonitorState
entry index [] = free_monitor
entry index ((i, m) ∷ states) = if i == index then m else entry index states

-- `states.entry(index).or_default()`, written
unfoldable pub put_entry : ℕ → MonitorState → Monitors → Monitors
put_entry index m [] = (index, m) ∷ []
put_entry index m ((i, n) ∷ states) =
    if i == index then (i, m) ∷ states else (i, n) ∷ put_entry index m states

-- `states.remove(&index)`
unfoldable pub remove_entry : ℕ → Monitors → Monitors
remove_entry index [] = []
remove_entry index ((i, n) ∷ states) =
    let rest = remove_entry index states in if i == index then rest else (i, n) ∷ rest

-- How a section ends: the method returns, or it waits on the condition variable.
pub data Section (A : Type 0) : Type 0 where
  returns : Result A → Section A
  waits : Section A

abbrev pub illegal_monitor_state : VmError
illegal_monitor_state = unhandled_exception "java/lang/IllegalMonitorStateException"

-- `monitor.lock_count == 0 || monitor.owner_thread == tid`
abbrev pub can_lock : ℕ → MonitorState → Bool
can_lock tid m = m.lock_count == 0 || m.owner_thread == tid

-- `monitor.lock_count == 0 || monitor.owner_thread != tid`
abbrev pub not_owner : ℕ → MonitorState → Bool
not_owner tid m = m.lock_count == 0 || not (m.owner_thread == tid)

abbrev pub locked_by : ℕ → MonitorState → MonitorState
locked_by tid m = record m { owner_thread = tid; lock_count = wrapping_inc m.lock_count 1 }

-- One round of the loop of `enter_monitor`.
unfoldable pub enter_monitor : ℕ → Reference → Monitors → Section (Unit {0}) × Monitors
enter_monitor tid null states = (returns (err null_reference), states)
enter_monitor tid (heap index) states =
    let m = entry index states in
    if can_lock tid m
    then (returns (ok tt), put_entry index (locked_by tid m) states)
    else (waits, put_entry index m states)

-- The monitor that an exit leaves, while it is still held or once it is free.
abbrev pub exited : MonitorState → MonitorState
exited m =
    if m.lock_count == 1
    then record m { lock_count = 0; owner_thread = 0 }
    else record m { lock_count = m.lock_count - 1 }

unfoldable pub exit_monitor : ℕ → Reference → Monitors → Result (Unit {0}) × Monitors
exit_monitor tid null states = (err null_reference, states)
exit_monitor tid (heap index) states =
    let m = entry index states in
    if not_owner tid m
    then (err illegal_monitor_state, put_entry index m states)
    else if m.lock_count == 1 && (m.waiting_threads == 0 && m.pending_notifies == 0)
    then (ok tt, remove_entry index (put_entry index (exited m) states))
    else (ok tt, put_entry index (exited m) states)

-- `wait_on_monitor` up to its wait: the monitor is given up, and the lock count is saved.
unfoldable pub wait_on_monitor : ℕ → Reference → Monitors → Result ℕ × Monitors
wait_on_monitor tid null states = (err null_reference, states)
wait_on_monitor tid (heap index) states =
    let m = entry index states in
    if not_owner tid m then (err illegal_monitor_state, put_entry index m states) else (
      ok m.lock_count,
      put_entry index
          (record m {
            lock_count = 0;
            owner_thread = 0;
            waiting_threads = wrapping_inc m.waiting_threads 1;
          })
          states,
    )

-- One wake-up in the loop of `wait_on_monitor`.
unfoldable pub wake_up : ℕ → ℕ → ℕ → Monitors → Section (Unit {0}) × Monitors
wake_up tid index saved_lock_count states =
    let m = entry index states in
    if ltb 0 m.pending_notifies && can_lock tid m
    then (
      returns (ok tt),
      put_entry index
          (record {
            lock_count = saved_lock_count;
            owner_thread = tid;
            waiting_threads = wrapping_dec m.waiting_threads 1;
            pending_notifies = m.pending_notifies - 1;
          })
          states,
    )
    else (waits, put_entry index m states)

unfoldable pub newly_available : Bool → MonitorState → ℕ
newly_available notify_all m =
    if notify_all
    then m.waiting_threads - m.pending_notifies
    else if ltb m.pending_notifies m.waiting_threads
    then 1
    else 0

unfoldable pub notify_monitor : ℕ → Reference → Bool → Monitors → Result (Unit {0}) × Monitors
notify_monitor tid null notify_all states = (err null_reference, states)
notify_monitor tid (heap index) notify_all states =
    let m = entry index states in
    if not_owner tid m then (err illegal_monitor_state, put_entry index m states) else (
      ok tt,
      put_entry index
          (record m {
            pending_notifies = wrapping_inc m.pending_notifies (newly_available notify_all m);
          })
          states,
    )
