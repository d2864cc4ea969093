-- ===== src/Monitor/Protocol.antt =====
-- The monitors of src/vm/mod.rs under any sequence of steps of the threads.
use jvm_rs.Prelude.{
  ℕ, zero, suc, ◌+◌, ◌-◌, ◌<◌, ◌≡◌, ◌∙◌, ◌≢◌, refl, sym, inl, inr, ◌&&◌, some, List, [], ◌∷◌, ltb,
  ◌==◌, if◌then◌else◌, get_elem?, arith, Bool-cases, ltb→lt, ==_refl,
}
use Prim.Native.Nat.add
use native.Mathlib.Nat.{add-zero}
use jvm_rs.Prelude.Words.{usize_max, wrapping_inc, wrapping_dec}
use jvm_rs.Types.Value.{heap}
use jvm_rs.Monitor.{MonitorState, entry, can_lock, not_owner, wait_on_monitor, wake_up}
use jvm_rs.Monitor.Threads.{
  Sleeper, System, remove_at, sleeping_on, after_wait, after_wake, Step, Reach, HasRoom,
  AllHaveRoom, IsSound, AreThreads, Invariant, at_entry, and-true, enter-IsSound, exit-IsSound,
  notify-IsSound, enter, exit, wait, wake, notify, here, next,
}

sleeping_on-remove_at :
    (i k : ℕ) (zs : List Sleeper) {z : Sleeper}
    → get_elem? zs k ≡ some z
    → sleeping_on i (remove_at k zs) + (if z.index == i then 1 else 0) ≡ sleeping_on i zs
sleeping_on-remove_at i k [] e = cc
sleeping_on-remove_at i zero (y ∷ zs) {z} e = let same : y ≡ z = cc in rw same (omega arith)
sleeping_on-remove_at i (suc k) (y ∷ zs) e = omega (arith, sleeping_on-remove_at i k zs e)

AreThreads-remove_at : (k : ℕ) (zs : List Sleeper) → AreThreads zs → AreThreads (remove_at k zs)
AreThreads-remove_at k [] h = tt
AreThreads-remove_at zero (z ∷ zs) h = h.2
AreThreads-remove_at (suc k) (z ∷ zs) h = (h.0, h.1, AreThreads-remove_at k zs h.2)

AreThreads-at :
    (k : ℕ) (zs : List Sleeper) {z : Sleeper}
    → AreThreads zs
    → get_elem? zs k ≡ some z
    → (z.tid ≢ 0) × (z.saved_lock_count ≢ 0)
AreThreads-at k [] h e = cc
AreThreads-at zero (y ∷ zs) {z} h e = let same : y ≡ z = cc in rw (← same) (h.0, h.1)
AreThreads-at (suc k) (y ∷ zs) h e = AreThreads-at k zs h.2 e

-- The monitor that a waiting thread leaves.
wait_begins :
    (i j : ℕ) (zs : List Sleeper) (m : MonitorState)
    → IsSound m (sleeping_on i zs)
    → sleeping_on i zs < usize_max
    → i ≡ j
    → IsSound
        (record m {
          lock_count = 0;
          owner_thread = 0;
          waiting_threads = wrapping_inc m.waiting_threads 1;
        })
        ((if i == j then 1 else 0) + sleeping_on j zs)
wait_begins i j zs m p room e =
    rw (← e, ==_refl i)
      (record {
        free = λ q. refl;
        owned = λ q. absurd (q refl);
        counted = omega (arith, p.counted);
        pending = omega (arith, p.counted, p.pending);
        fits = omega (arith, p.counted);
      })

wait-Invariant :
    (tid i : ℕ) (s : System)
    → tid ≢ 0
    → sleeping_on i s.sleepers < usize_max
    → Invariant s
    → Invariant (record {
      states = (wait_on_monitor tid (heap i) s.states).1;
      sleepers = after_wait tid i (wait_on_monitor tid (heap i) s.states).0 s.sleepers;
    })
unfolding wait_on_monitor
wait-Invariant tid i s t room (sound, threads) =
    elim (Bool-cases (not_owner tid (entry i s.states))) [
      | inl not_mine ↦ rw not_mine (
        λ j.
            at_entry (λ m. IsSound m (sleeping_on j s.sleepers)) i j (entry i s.states) s.states
              (λ e. rw e (sound j)) (λ ne. sound j),
        threads,
      )
      | inr mine ↦ rw mine (
        λ j.
            at_entry (λ m. IsSound m ((if i == j then 1 else 0) + sleeping_on j s.sleepers)) i j _
              s.states (λ e. wait_begins i j s.sleepers (entry i s.states) (sound i) room e)
              (λ ne. rw ne (rw add.zero (sound j))),
        (t, ground arith, threads),
      )
    ]

-- The monitor that a thread takes when it wakes up.
wake_ends :
    (i j : ℕ) (zs : List Sleeper) (n : ℕ) (m : MonitorState) (tid saved : ℕ)
    → tid ≢ 0
    → saved ≢ 0
    → IsSound m (sleeping_on i zs)
    → n + (if i == j then 1 else 0) ≡ sleeping_on j zs
    → 0 < m.pending_notifies
    → i ≡ j
    → IsSound
        (record {
          lock_count = saved;
          owner_thread = tid;
          waiting_threads = wrapping_dec m.waiting_threads 1;
          pending_notifies = m.pending_notifies - 1;
        })
        n
wake_ends i j zs n m tid saved t held p less notified e =
    let one : n + 1 ≡ sleeping_on i zs = rw (← e, ==_refl i) at less in
    record {
      free = λ q. absurd (held q);
      owned = λ q. t;
      counted = omega (arith, p.counted, p.fits, one);
      pending = omega (arith, p.pending, p.fits);
      fits = omega (arith, p.fits);
    }

wake-Invariant :
    (k : ℕ) (z : Sleeper) (s : System)
    → get_elem? s.sleepers k ≡ some z
    → Invariant s
    → Invariant (record {
      states = (wake_up z.tid z.index z.saved_lock_count s.states).1;
      sleepers = after_wake k (wake_up z.tid z.index z.saved_lock_count s.states).0 s.sleepers;
    })
unfolding wake_up
wake-Invariant k z s at (sound, threads) =
    let m = entry z.index s.states in
    let (t, held) = AreThreads-at k s.sleepers threads at in
    elim (Bool-cases (ltb 0 m.pending_notifies && can_lock z.tid m)) [
      | inr not_yet ↦ rw not_yet (
        λ j.
            at_entry (λ w. IsSound w (sleeping_on j s.sleepers)) z.index j m s.states
              (λ e. rw e (sound j)) (λ ne. sound j),
        threads,
      )
      | inl now ↦
          let (some_pending, can) = and-true _ _ now in
          let notified = ltb→lt 0 m.pending_notifies some_pending in
          rw now (
            λ j.
                at_entry (λ w. IsSound w (sleeping_on j (remove_at k s.sleepers))) z.index j _
                  s.states
                  (λ e.
                    wake_ends z.index j s.sleepers _ m z.tid z.saved_lock_count t held
                      (sound z.index) (sleeping_on-remove_at j k s.sleepers at) notified e)
                  (λ ne.
                    let less = sleeping_on-remove_at j k s.sleepers at in
                    let same : sleeping_on j (remove_at k s.sleepers) ≡ sleeping_on j s.sleepers =
                      sym (add-zero _) ∙ (rw ne at less) in
                    rw same (sound j)),
            AreThreads-remove_at k s.sleepers threads,
          )
    ]

Step-Invariant : {s t : System} (st : Step s t) → HasRoom st → Invariant s → Invariant t
Step-Invariant {s} (enter tid i t) room (sound, threads) =
    (λ j. enter-IsSound tid i j (sleeping_on j s.sleepers) s.states t room (sound j), threads)
Step-Invariant {s} (exit tid i t) room (sound, threads) =
    (λ j. exit-IsSound tid i j (sleeping_on j s.sleepers) s.states t (sound j), threads)
Step-Invariant {s} (wait tid i t) room h = wait-Invariant tid i s t room h
Step-Invariant {s} (wake k z at) room h = wake-Invariant k z s at h
Step-Invariant {s} (notify tid i all t) room (sound, threads) =
    (λ j. notify-IsSound tid i j (sleeping_on j s.sleepers) all s.states t (sound j), threads)

Reach-Invariant : {s : System} (r : Reach s) → AllHaveRoom r → Invariant s
unfolding entry
Reach-Invariant here room = (
  λ i. record {
    free = λ e. refl;
    owned = λ e. absurd (e refl);
    counted = refl;
    pending = omega arith;
    fits = omega arith;
  },
  tt,
)
Reach-Invariant (next r st) (now, before) = Step-Invariant st now (Reach-Invariant r before)

-- Whatever threads do with their monitors, in any order, as long as no thread enters a monitor that
-- has been entered 2 ^ 64 - 1 times already or begins to wait where 2 ^ 64 - 1 threads sleep
-- already: a monitor is free exactly when it has no owner, its count of waiting threads is the
-- number of threads that sleep on it, and at most that many notifications are pending.
pub Reach-IsSound :
    {s : System} (r : Reach s)
    → AllHaveRoom r
    → (i : ℕ) → IsSound (entry i s.states) (sleeping_on i s.sleepers)
Reach-IsSound r room = (Reach-Invariant r room).0
