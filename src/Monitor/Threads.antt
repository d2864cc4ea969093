-- ===== src/Monitor/Threads.antt =====
-- The threads of src/vm/mod.rs around the monitors, as a step relation: each step is one section of a
-- monitor method, by any thread, in any order. A thread that waits on a monitor is a sleeper until a
-- wake-up lets it return.
use jvm_rs.Prelude.{
  ℕ, zero, suc, ◌+◌, ◌≤◌, ◌<◌, ◌≡◌, ◌≢◌, refl, inl, inr, Bool, true, false, ◌&&◌, some, List, [],
  ◌∷◌, ◌==◌, if◌then◌else◌, get_elem?, arith, Bool-cases, ==_iff,
}
use jvm_rs.Prelude.Words.{usize_max, wrapping_inc}
use jvm_rs.Types.Value.{heap, Result, ok}
use jvm_rs.Monitor.{
  MonitorState, Monitors, entry, put_entry, Section, returns, waits, can_lock, not_owner, locked_by,
  enter_monitor, exited, exit_monitor, wait_on_monitor, wake_up, newly_available, notify_monitor,
}
use jvm_rs.Monitor.Entries.{entry-put_entry, enter_monitor-entry, exit_monitor-entry}

pub record Sleeper : Type 0 where
  pub tid : ℕ
  pub index : ℕ
  pub saved_lock_count : ℕ

pub record System : Type 0 where
  pub states : Monitors
  pub sleepers : List Sleeper

abbrev pub start : System
start = record { states = []; sleepers = [] }

abbrev pub remove_at : ℕ → List Sleeper → List Sleeper
remove_at k [] = []
remove_at zero (s ∷ ss) = ss
remove_at (suc k) (s ∷ ss) = s ∷ remove_at k ss

abbrev pub sleeping_on : ℕ → List Sleeper → ℕ
sleeping_on i [] = 0
sleeping_on i (s ∷ ss) = (if s.index == i then 1 else 0) + sleeping_on i ss

-- After a call of `wait_on_monitor`: the thread sleeps, or the call has failed.
abbrev pub after_wait : ℕ → ℕ → Result ℕ → List Sleeper → List Sleeper
after_wait tid i (ok saved) ss = record { tid = tid; index = i; saved_lock_count = saved } ∷ ss
after_wait tid i _ ss = ss

-- After the sleeper at a place has woken up: it has returned, or it sleeps on.
abbrev pub after_wake : ℕ → Section (Unit {0}) → List Sleeper → List Sleeper
after_wake k (returns _) ss = remove_at k ss
after_wake k waits ss = ss

pub data Step (s : System) : System → Type 0 where
  enter :
      (tid i : ℕ) → tid ≢ 0 → Step s (record s { states = (enter_monitor tid (heap i) s.states).1 })
  exit :
      (tid i : ℕ) → tid ≢ 0 → Step s (record s { states = (exit_monitor tid (heap i) s.states).1 })
  wait :
      (tid i : ℕ)
      → tid ≢ 0
      → Step s (record {
        states = (wait_on_monitor tid (heap i) s.states).1;
        sleepers = after_wait tid i (wait_on_monitor tid (heap i) s.states).0 s.sleepers;
      })
  wake :
      (k : ℕ) (z : Sleeper)
      → get_elem? s.sleepers k ≡ some z
      → Step s (record {
        states = (wake_up z.tid z.index z.saved_lock_count s.states).1;
        sleepers = after_wake k (wake_up z.tid z.index z.saved_lock_count s.states).0 s.sleepers;
      })
  notify :
      (tid i : ℕ) (notify_all : Bool)
      → tid ≢ 0
      → Step s (record s { states = (notify_monitor tid (heap i) notify_all s.states).1 })

pub data Reach : System → Type 0 where
  here : Reach start
  next : {s t : System} → Reach s → Step s t → Reach t

-- Along the run no thread enters a monitor that has been entered 2 ^ 64 - 1 times already, and none
-- begins to wait on a monitor on which 2 ^ 64 - 1 threads sleep already.
abbrev pub HasRoom : {s t : System} → Step s t → Type 0
HasRoom {s} (enter tid i _) = (entry i s.states).lock_count < usize_max
HasRoom {s} (wait tid i _) = sleeping_on i s.sleepers < usize_max
HasRoom {s} (exit tid i _) = Unit
HasRoom {s} (wake k z _) = Unit
HasRoom {s} (notify tid i all _) = Unit

abbrev pub AllHaveRoom : {s : System} → Reach s → Type 0
AllHaveRoom here = Unit
AllHaveRoom (next r st) = HasRoom st × AllHaveRoom r

-- A monitor is free exactly when it has no owner; it counts its sleepers, and at most as many
-- notifications are pending.
pub record IsSound (m : MonitorState) (sleeping : ℕ) : Type 0 where
  pub free : m.lock_count ≡ 0 → m.owner_thread ≡ 0
  pub owned : m.lock_count ≢ 0 → m.owner_thread ≢ 0
  pub counted : m.waiting_threads ≡ sleeping
  pub pending : m.pending_notifies ≤ m.waiting_threads
  pub fits : m.waiting_threads ≤ usize_max

-- A sleeper is a thread that held its monitor.
abbrev pub AreThreads : List Sleeper → Type 0
AreThreads [] = Unit
AreThreads (z ∷ zs) = (z.tid ≢ 0) × (z.saved_lock_count ≢ 0) × AreThreads zs

abbrev pub Invariant : System → Type 0
Invariant s =
    ((i : ℕ) → IsSound (entry i s.states) (sleeping_on i s.sleepers)) × AreThreads s.sleepers

module _ (tid : ℕ) (is_thread : tid ≢ 0) (m : MonitorState) (n : ℕ) (p : IsSound m n) where
  locked_by-IsSound : m.lock_count < usize_max → IsSound (locked_by tid m) n
  locked_by-IsSound room = record {
    free = λ e. absurd (omega (arith, e));
    owned = λ e. is_thread;
    counted = p.counted;
    pending = p.pending;
    fits = p.fits;
  }

  exited-IsSound : IsSound (exited m) n
  exited-IsSound = ground arith

  notified-IsSound :
      (notify_all : Bool)
      → IsSound
          (record m {
            pending_notifies = wrapping_inc m.pending_notifies (newly_available notify_all m);
          })
          n
  unfolding newly_available
  notified-IsSound notify_all = record {
    free = p.free;
    owned = p.owned;
    counted = p.counted;
    pending = ground (arith, p.pending, p.fits);
    fits = p.fits;
  }

pub at_entry :
    (P : MonitorState → Type 0) (i j : ℕ) (m : MonitorState) (states : Monitors)
    → (i ≡ j → P m)
    → ((i == j) ≡ false → P (entry j states))
    → P (entry j (put_entry i m states))
at_entry P i j m states new old = rw (entry-put_entry i j m states) (elim (Bool-cases (i == j)) [
  | inl same ↦ rw same (new ((==_iff i j).0 same))
  | inr other ↦ rw other (old other)
])

if_IsSound :
    (n : ℕ) (b : Bool) (x y : MonitorState)
    → (b ≡ true → IsSound x n)
    → (b ≡ false → IsSound y n)
    → IsSound (if b then x else y) n
if_IsSound n true x y h k = h refl
if_IsSound n false x y h k = k refl

pub and-true : (a b : Bool) → (a && b) ≡ true → (a ≡ true) × (b ≡ true)
and-true true true h = (refl, refl)
and-true true false h = cc
and-true false b h = cc

pub enter-IsSound :
    (tid i j n : ℕ) (states : Monitors)
    → tid ≢ 0
    → (entry i states).lock_count < usize_max
    → IsSound (entry j states) n
    → IsSound (entry j (enter_monitor tid (heap i) states).1) n
enter-IsSound tid i j n states t room p = rw ((enter_monitor-entry tid i j states).1) (
    if_IsSound n (i == j && can_lock tid (entry i states)) _ _
      (λ both.
        let (same, _) = and-true (i == j) (can_lock tid (entry i states)) both in
        let e = (==_iff i j).0 same in
        let room' = rw e at room in rw e (locked_by-IsSound tid t (entry j states) n p room'))
      (λ other. p))

pub exit-IsSound :
    (tid i j n : ℕ) (states : Monitors)
    → tid ≢ 0
    → IsSound (entry j states) n
    → IsSound (entry j (exit_monitor tid (heap i) states).1) n
exit-IsSound tid i j n states t p = rw ((exit_monitor-entry tid i j states).1) (
    if_IsSound n (i == j) _ _
      (λ same.
        let e = (==_iff i j).0 same in
        rw e (
          if_IsSound n (not_owner tid (entry j states)) _ _ (λ not_mine. p)
            (λ mine. exited-IsSound tid t (entry j states) n p)))
      (λ other. p))

pub notify-IsSound :
    (tid i j n : ℕ) (all : Bool) (states : Monitors)
    → tid ≢ 0
    → IsSound (entry j states) n
    → IsSound (entry j (notify_monitor tid (heap i) all states).1) n
unfolding notify_monitor
notify-IsSound tid i j n all states t p = elim (Bool-cases (not_owner tid (entry i states))) [
  | inl not_mine ↦
      rw not_mine (at_entry (λ m. IsSound m n) i j (entry i states) states (λ e. rw e p) (λ ne. p))
  | inr mine ↦ rw mine (
      at_entry (λ m. IsSound m n) i j _ states
        (λ e. rw e (notified-IsSound tid t (entry j states) n p all)) (λ ne. p))
]
