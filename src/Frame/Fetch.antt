-- ===== src/Frame/Fetch.antt =====
-- src/vm/frame.rs: reading immediates from the code, and branches.
use jvm_rs.Prelude.{
  ℕ, ◌+◌, ◌/◌, ◌%◌, ◌≤◌, ◌<◌, ◌≡◌, ◌∙◌, refl, ap, ◌↔◌, Option, none, some, List, [], ◌∷◌, length,
  get_elem?, arith, lt-get_elem?, get_elem?-none,
}
use mathlib.Core.Path.{subst}
use jvm_rs.Prelude.Int.{ℤ, pos, negsuc, IsI32, to_u32, from_u32-to_u32, ◌+ℤ◌}
use jvm_rs.Types.Value.{ok, err, panic, Result, unexpected_eof}
use jvm_rs.Types.Action.{Action, and_then, pure}
use jvm_rs.Frame.Defs.{Frame}
use jvm_rs.Frame.Ops.{
  fetched, read_u8, read_i16, read_u16, read_i32, u16_from_be, u32_from_be, branch, branched,
}

-- The bytes stand in the code from an address on.
abbrev pub CodeAt : List ℕ → ℕ → List ℕ → Type 0
CodeAt code pc [] = Unit
CodeAt code pc (b ∷ bs) = (get_elem? code pc ≡ some b) × CodeAt code (pc + 1) bs

-- `to_be_bytes` of a `u16` and of an `i32`
abbrev pub u16_to_be : ℕ → List ℕ
u16_to_be n = n / 0x100 ∷ n % 0x100 ∷ []

abbrev pub u32_to_be : ℕ → List ℕ
u32_to_be n = n / 0x100_0000 ∷ n / 0x1_0000 % 0x100 ∷ n / 0x100 % 0x100 ∷ n % 0x100 ∷ []

read_u8_at :
    (f : Frame) (b : ℕ)
    → get_elem? f.code f.pc ≡ some b
    → read_u8 f ≡ (ok b, record f { pc = f.pc + 1 })
unfolding read_u8
read_u8_at f b h = ground arith

-- Reading a `u16` gives back the number whose two big-endian bytes stand at the program counter,
-- and moves it past them.
pub read_u16-u16_to_be :
    (f : Frame) (n : ℕ)
    → CodeAt f.code f.pc (u16_to_be n)
    → read_u16 f ≡ (ok n, record f { pc = f.pc + 2 })
unfolding read_u16 u16_from_be
read_u16-u16_to_be f n (h0, (h1, _)) =
    ground
      (arith, read_u8_at f (n / 0x100) h0, read_u8_at (record f { pc = f.pc + 1 }) (n % 0x100) h1)

u32_from_be-to_be :
    (n : ℕ)
    → u32_from_be (n / 0x100_0000) (n / 0x1_0000 % 0x100) (n / 0x100 % 0x100) (n % 0x100) ≡ n
unfolding u32_from_be
u32_from_be-to_be n = omega arith

-- Reading an `i32` gives back the integer whose two's complement bytes stand at the program counter.
pub read_i32-u32_to_be :
    (f : Frame) (z : ℤ)
    → IsI32 z
    → CodeAt f.code f.pc (u32_to_be (to_u32 z))
    → read_i32 f ≡ (ok z, record f { pc = f.pc + 4 })
unfolding read_i32
read_i32-u32_to_be f z hz (h0, (h1, (h2, (h3, _)))) =
    let w = to_u32 z in
    rw
      (
        read_u8_at f (w / 0x100_0000) h0,
        read_u8_at (record f { pc = f.pc + 1 }) (w / 0x1_0000 % 0x100) h1,
        read_u8_at (record f { pc = f.pc + 1 + 1 }) (w / 0x100 % 0x100) h2,
        read_u8_at (record f { pc = f.pc + 1 + 1 + 1 }) (w % 0x100) h3,
        u32_from_be-to_be w,
        from_u32-to_u32 z hz,
      )
      (ap (λ (p : ℕ). (ok z, record f { pc = p })) (omega arith))

-- What a read of `width` bytes does: it moves the program counter past them, within the code, or it
-- fails at the end of the code with the counter there; nothing else of the frame changes.
abbrev pub Fetches {ℓ} : {A : Type ℓ} → ℕ → Frame → Result A × Frame → Type 0
Fetches width f (ok _, f') = (f' ≡ record f { pc = f.pc + width }) × (f.pc + width ≤ length f.code)
Fetches width f (err e, f') =
    (f' ≡ record f { pc = f'.pc })
    × (e ≡ unexpected_eof f'.pc)
    × (f.pc ≤ f'.pc)
    × (f'.pc < f.pc + width)
    × (length f.code ≤ f'.pc)
Fetches width f (panic, f') = ⊥

read_u8-Fetches : (f : Frame) → Fetches 1 f (read_u8 f)
unfolding read_u8
read_u8-Fetches f = go (get_elem? f.code f.pc) refl
  where
    go : (o : Option ℕ) → get_elem? f.code f.pc ≡ o → Fetches 1 f (fetched o f)
    go none past = (refl, refl, omega arith, omega arith, get_elem?-none f.code f.pc past)
    go (some b) at = (refl, omega (arith, lt-get_elem? f.code f.pc at))

-- A read after `a` bytes have been fetched.
Fetches-after {ℓ} :
    {A : Type ℓ} (a b : ℕ) (f g : Frame) (r : Result A × Frame)
    → g ≡ record f { pc = f.pc + a }
    → f.pc + a ≤ length f.code
    → Fetches b g r
    → Fetches (a + b) f r
Fetches-after {A} a b f g r e bound p = shift r (subst (λ x. Fetches b x r) e p)
  where
    shift : (r : Result A × Frame) → Fetches b (record f { pc = f.pc + a }) r → Fetches (a + b) f r
    shift (ok x, h) (same, fits) =
        (same ∙ ap (λ (p : ℕ). record f { pc = p }) (omega arith), omega arith)
    shift (err x, h) (same, last, lo, hi, past) = (same, last, omega arith, omega arith, past)
    shift (panic, h) p = p

Fetches-bind :
    {A B : Type 0} (a b : ℕ) (f : Frame) (r : Result A × Frame) (k : A → Action Frame B)
    → Fetches a f r
    → ((x : A) (g : Frame) → Fetches b g (k x g))
    → Fetches (a + b) f (and_then r.0 k r.1)
Fetches-bind a b f (ok x, g) k (same, fits) after =
    Fetches-after a b f g (k x g) same fits (after x g)
Fetches-bind a b f (err e, g) k (same, last, lo, hi, past) after =
    (same, last, lo, omega arith, past)
Fetches-bind a b f (panic, g) k p after = p

Fetches-map :
    {A B : Type 0} (a : ℕ) (f : Frame) (r : Result A × Frame) (k : A → B)
    → Fetches a f r
    → Fetches a f (and_then r.0 (λ x. pure (k x)) r.1)
Fetches-map a f (ok x, g) k p = p
Fetches-map a f (err e, g) k p = p
Fetches-map a f (panic, g) k p = p

-- A 16-bit read, signed or not, fetches two bytes and a 32-bit read four: it either moves the
-- program counter past them within the code, or fails at the end of the code.
pub reads-Fetches :
    (f : Frame) → Fetches 2 f (read_u16 f) × Fetches 2 f (read_i16 f) × Fetches 4 f (read_i32 f)
unfolding read_u16 read_i16 read_i32
reads-Fetches f = (
  Fetches-bind 1 1 f (read_u8 f) _ (read_u8-Fetches f)
      λ b0 g. Fetches-map 1 g (read_u8 g) _ (read_u8-Fetches g),
  Fetches-bind 1 1 f (read_u8 f) _ (read_u8-Fetches f)
      λ b0 g. Fetches-map 1 g (read_u8 g) _ (read_u8-Fetches g),
  Fetches-bind 1 3 f (read_u8 f) _ (read_u8-Fetches f) λ b0 g.
      Fetches-bind 1 2 g (read_u8 g) _ (read_u8-Fetches g) λ b1 h.
        Fetches-bind 1 1 h (read_u8 h) _ (read_u8-Fetches h)
          λ b2 i. Fetches-map 1 i (read_u8 i) _ (read_u8-Fetches i),
)

-- A branch succeeds exactly when its target lies in the code or at its end, and then it sets the
-- program counter to the target and changes nothing else.
pub branch_iff :
    (opcode_pc : ℕ) (offset : ℤ) (f f' : Frame)
    → (branch opcode_pc offset f ≡ (ok tt, f')) ↔ (
        (t : ℕ) × (pos opcode_pc +ℤ offset ≡ pos t)
        × (t ≤ length f.code)
        × (f' ≡ record f { pc = t }))
unfolding branch
branch_iff opcode_pc offset f f' = go (pos opcode_pc +ℤ offset) refl
  where
    go :
        (z : ℤ)
        → pos opcode_pc +ℤ offset ≡ z
        → (branched z f ≡ (ok tt, f'))
          ↔ ((t : ℕ) × (z ≡ pos t) × (t ≤ length f.code) × (f' ≡ record f { pc = t }))
    go (negsuc n) e = ((λ h. cc), λ (t, q, _, _). cc)
    go (pos t) e =
        ((λ h. (t, refl, ground arith, ground arith)), λ (u, q, fits, same). ground arith)
