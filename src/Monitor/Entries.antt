-- ===== src/Monitor/Entries.antt =====
-- The table of monitors of src/vm/mod.rs, and what one thread sees of a monitor that it enters and
-- exits, or waits on.
use jvm_rs.Prelude.{
  ℕ, suc, ◌<◌, ◌≡◌, ◌∙◌, refl, ap, inl, inr, true, false, ◌&&◌, [], ◌∷◌, ◌==◌, if◌then◌else◌, arith,
  Bool-cases, ==_iff, ==_refl,
}
use jvm_rs.Prelude.Words.{usize_max, wrapping_inc}
use jvm_rs.Types.Value.{heap, ok, err}
use jvm_rs.Monitor.{
  MonitorState, Monitors, free_monitor, entry, put_entry, remove_entry, returns, waits,
  illegal_monitor_state, can_lock, not_owner, locked_by, enter_monitor, exited, exit_monitor,
}

pub entry-put_entry :
    (i j : ℕ) (m : MonitorState) (states : Monitors)
    → entry j (put_entry i m states) ≡ (if i == j then m else entry j states)
unfolding entry put_entry
entry-put_entry i j m [] = refl
entry-put_entry i j m ((k, n) ∷ states) = ground (arith, entry-put_entry i j m states)

pub entry-remove_entry :
    (i j : ℕ) (states : Monitors)
    → entry j (remove_entry i states) ≡ (if i == j then free_monitor else entry j states)
unfolding entry remove_entry
entry-remove_entry i j [] = ground arith
entry-remove_entry i j ((k, n) ∷ states) = ground (arith, entry-remove_entry i j states)

-- What an exit makes of each monitor: the owner gives up one entry of the monitor, and nothing else
-- changes. That a free monitor with no waiter is dropped from the table cannot be seen.
pub exit_monitor-entry :
    (tid i j : ℕ) (states : Monitors)
    → let m = entry i states in
      let (r, states') = exit_monitor tid (heap i) states in
      (r ≡ (if not_owner tid m then err illegal_monitor_state else ok tt))
      × (entry j states'
          ≡ (if i == j then if not_owner tid m then m else exited m else entry j states))
unfolding exit_monitor
exit_monitor-entry tid i j states =
    let m = entry i states in
    ground (
      arith,
      entry-put_entry i j m states,
      entry-put_entry i j (exited m) states,
      entry-remove_entry i j (put_entry i (exited m) states),
    )

-- A thread enters a monitor exactly when it is free or already the thread's own, and otherwise waits.
-- Entering makes the thread the owner with one entry more; no other monitor changes, and waiting
-- changes none.
pub enter_monitor-entry :
    (tid i j : ℕ) (states : Monitors)
    → let m = entry i states in
      let (r, states') = enter_monitor tid (heap i) states in
      (r ≡ (if can_lock tid m then returns (ok tt) else waits))
      × (entry j states' ≡ (if i == j && can_lock tid m then locked_by tid m else entry j states))
unfolding enter_monitor
enter_monitor-entry tid i j states =
    let m = entry i states in
    elim (Bool-cases (can_lock tid m)) [
      | inl can ↦ rw can (refl, ground (arith, entry-put_entry i j (locked_by tid m) states))
      | inr busy ↦ rw busy (refl, ground (arith, entry-put_entry i j m states))
    ]

exited-locked_by :
    (tid : ℕ) (m : MonitorState)
    → can_lock tid m ≡ true
    → m.lock_count < usize_max
    → (m.lock_count ≡ 0 → m.owner_thread ≡ 0)
    → (not_owner tid (locked_by tid m) ≡ false) × (exited (locked_by tid m) ≡ m)
exited-locked_by tid m can room free =
    let counts : wrapping_inc m.lock_count 1 ≡ suc m.lock_count = omega arith in
    rw counts (ground arith, ground arith)

-- A thread that enters a monitor and exits it at once leaves every monitor as it was, given that a
-- free monitor has no owner and that the monitor has been entered fewer than 2 ^ 64 - 1 times.
pub exit-enter :
    (tid i j : ℕ) (states : Monitors)
    → can_lock tid (entry i states) ≡ true
    → (entry i states).lock_count < usize_max
    → ((entry i states).lock_count ≡ 0 → (entry i states).owner_thread ≡ 0)
    → let states' = (enter_monitor tid (heap i) states).1 in
      let (r, states'') = exit_monitor tid (heap i) states' in
      (r ≡ ok tt) × (entry j states'' ≡ entry j states)
exit-enter tid i j states can room free =
    let m = entry i states in
    let states' = (enter_monitor tid (heap i) states).1 in
    let (r, e) = exit_monitor-entry tid i j states' in
    let (owns, back) = exited-locked_by tid m can room free in
    let here : entry i states' ≡ locked_by tid m =
      (enter_monitor-entry tid i i states).1 ∙ rw (==_refl i, can) in
    let there : entry j states' ≡ (if i == j then locked_by tid m else entry j states) =
      (enter_monitor-entry tid i j states).1 ∙ ground arith in
    (
      r ∙ rw (here, owns),
      e
          ∙ rw (here, owns, back, there)
              (elim (Bool-cases (i == j)) [
                | inl same ↦ rw same (ap (λ k. entry k states) ((==_iff i j).0 same))
                | inr other ↦ rw other
              ]),
    )
