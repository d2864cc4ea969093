-- ===== src/Thread.antt =====
-- src/vm/thread.rs: the call stack of a thread, the innermost frame first. A call that expects a
-- frame on an empty call stack panics.
use jvm_rs.Prelude.{ℕ, List, [], ◌∷◌, length}
use jvm_rs.Types.Value.{Result, ok, panic}
use jvm_rs.Types.Method.{Method}
use jvm_rs.Types.Action.{Action}
use jvm_rs.Frame.Defs.{Frame}
use jvm_rs.Frame.Defs

pub record Thread : Type 0 where
  pub frames : List Frame

unfoldable pub new : Method → Thread
new m = record { frames = Defs.new m ∷ [] }

unfoldable pub dummy : Thread
dummy = record { frames = [] }

-- A call on `current_frame_mut()`: the method runs on the innermost frame, which it may change.
unfoldable pub current_frame_mut : {A : Type 0} → Action Frame A → Action Thread A
current_frame_mut m t = elim t.frames [
  | [] ↦ (panic, t)
  | f ∷ callers ↦ let (r, f') = m f in (r, record { frames = f' ∷ callers })
]

-- A call on `current_frame()`, which reads the innermost frame.
unfoldable pub current_frame : {A : Type 0} → (Frame → Result A) → Action Thread A
current_frame g t = elim t.frames [ [] ↦ (panic, t) | f ∷ callers ↦ (g f, t) ]

unfoldable pub push_frame : Frame → Action Thread (Unit {0})
push_frame f t = (ok tt, record { frames = f ∷ t.frames })

unfoldable pub pop_frame : Action Thread Frame
pop_frame t = elim t.frames [ [] ↦ (panic, t) | f ∷ callers ↦ (ok f, record { frames = callers }) ]

unfoldable pub depth : Thread → ℕ
depth t = length t.frames
