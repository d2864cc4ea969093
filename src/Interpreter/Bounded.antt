-- ===== src/Interpreter/Bounded.antt =====
-- Actions of a thread that keep every operand stack within the maximum of its frame.
use jvm_rs.Prelude.{
  ℕ, suc, ◌≤◌, ◌≡◌, refl, Option, none, some, List, [], ◌∷◌, length, get_elem?, arith,
}
use jvm_rs.Types.Value.{Value, Result, ok, err, panic}
use jvm_rs.Types.Action.{Action, lift, and_then, ◌>>=◌}
use jvm_rs.Frame.Defs.{Frame}
use jvm_rs.Frame.Ops.{push, pop, store_local, read_u8, read_u16, read_i16, fetched}
use jvm_rs.Thread.{Thread, current_frame, current_frame_mut, pop_frame}

abbrev pub Fits : Frame → Type 0
Fits f = length f.stack ≤ f.max_stack

abbrev pub AllFit : List Frame → Type 0
AllFit [] = Unit
AllFit (f ∷ fs) = Fits f × AllFit fs

-- The call keeps every operand stack of the thread within its frame's maximum, however it ends.
pub record Bounded {A : Type 0} (m : Action Thread A) : Type 0 where
  pub keeps : (t : Thread) → AllFit t.frames → AllFit (m t).1.frames

abbrev BoundedFrame : {A : Type 0} → Action Frame A → Type 0
BoundedFrame m = (f : Frame) → Fits f → Fits (m f).1

pub bind-Bounded :
    {A B : Type 0} (m : Action Thread A) (k : A → Action Thread B)
    → Bounded m
    → ((a : A) → Bounded (k a))
    → Bounded (m >>= k)
bind-Bounded {A} {B} m k hm hk = record { keeps = λ t fits. go (m t) (hm.keeps t fits) }
  where
    go : (r : Result A × Thread) → AllFit r.1.frames → AllFit (and_then r.0 k r.1).1.frames
    go (ok a, u) h = (hk a).keeps u h
    go (err e, u) h = h
    go (panic, u) h = h

pub frame-Bounded :
    {A : Type 0} (m : Action Frame A) → BoundedFrame m → Bounded (current_frame_mut m)
unfolding current_frame_mut
frame-Bounded m h = record { keeps = λ t fits. go t.frames fits }
  where
    go :
        (fs : List Frame)
        → AllFit fs
        → AllFit (current_frame_mut m (record { frames = fs })).1.frames
    go [] p = tt
    go (f ∷ fs) p = (h f p.0, p.1)

pub read-Bounded : {A : Type 0} (g : Frame → Result A) → Bounded (current_frame g)
unfolding current_frame
read-Bounded g = record { keeps = λ t fits. go t.frames fits }
  where
    go : (fs : List Frame) → AllFit fs → AllFit (current_frame g (record { frames = fs })).1.frames
    go [] p = tt
    go (f ∷ fs) p = p

pub lift-Bounded : {A : Type 0} (r : Result A) → Bounded (lift r)
lift-Bounded r = record { keeps = λ t fits. fits }

pub push-Bounded : (v : Value) → Bounded (current_frame_mut (push v))
unfolding push
push-Bounded v = frame-Bounded (push v) (λ f h. ground arith)

pub pop-Bounded : Bounded (current_frame_mut pop)
unfolding pop
pop-Bounded = frame-Bounded pop (λ f h. go f f.stack refl h)
  where
    go : (f : Frame) (s : List Value) → f.stack ≡ s → Fits f → Fits (pop f).1
    go f [] e h = rw (pop, e) h
    go f (v ∷ s) e h =
        let h' : suc (length s) ≤ f.max_stack = rw e at h in rw (pop, e) (omega (arith, h'))

pub store-Bounded : (i : ℕ) (v : Value) → Bounded (current_frame_mut (store_local i v))
unfolding store_local
store-Bounded i v = frame-Bounded (store_local i v) (λ f h. ground arith)

pub read_u8-fits : BoundedFrame read_u8
unfolding read_u8
read_u8-fits f h = go (get_elem? f.code f.pc)
  where
    go : (o : Option ℕ) → Fits (fetched o f).1
    go none = h
    go (some b) = h

frame-bind :
    {A B : Type 0} (m : Action Frame A) (k : A → Action Frame B)
    → BoundedFrame m
    → ((a : A) → BoundedFrame (k a))
    → BoundedFrame (m >>= k)
frame-bind {A} {B} m k hm hk f fits = go (m f) (hm f fits)
  where
    go : (r : Result A × Frame) → Fits r.1 → Fits (and_then r.0 k r.1).1
    go (ok a, u) h = hk a u h
    go (err e, u) h = h
    go (panic, u) h = h

pub read_u16-fits : BoundedFrame read_u16 × BoundedFrame read_i16
unfolding read_u16 read_i16
read_u16-fits = (
  frame-bind read_u8 _ read_u8-fits (λ a. frame-bind read_u8 _ read_u8-fits (λ b f h. h)),
  frame-bind read_u8 _ read_u8-fits (λ a. frame-bind read_u8 _ read_u8-fits (λ b f h. h)),
)

pub pop_frame-Bounded : Bounded pop_frame
unfolding pop_frame
pop_frame-Bounded = record { keeps = λ t fits. go t.frames fits }
  where
    go : (fs : List Frame) → AllFit fs → AllFit (pop_frame (record { frames = fs })).1.frames
    go [] p = tt
    go (f ∷ fs) p = p.1
