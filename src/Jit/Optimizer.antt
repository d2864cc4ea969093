-- ===== src/Jit/Optimizer.antt =====
-- src/vm/jit/optimizer.rs: the constant-fold pass over raw bytecode, and the inlining threshold.
-- The source folds in place and steps over the three bytes that it rewrites, so no byte is read
-- after it is written; here the pass returns the new bytes.
pub mod Loop
pub mod Engine
pub mod Meaning
pub mod Operands
pub mod Refused
mod Tests
use jvm_rs.Prelude.{
  ℕ, ◌<◌, Bool, true, false, Option, none, some, List, [], ◌∷◌, ltb, ◌==◌, if◌then◌else◌,
}
use jvm_rs.Prelude.Int.{ℤ, pos, negsuc, ◌+ℤ◌, ◌-ℤ◌, ◌*ℤ◌}

unfoldable pub iconst_value : ℕ → Option ℤ
iconst_value byte =
    if byte == 0x02
    then some (negsuc 0)
    else if byte == 0x03
    then some (pos 0)
    else if byte == 0x04
    then some (pos 1)
    else if byte == 0x05
    then some (pos 2)
    else if byte == 0x06
    then some (pos 3)
    else if byte == 0x07
    then some (pos 4)
    else if byte == 0x08
    then some (pos 5)
    else none

unfoldable pub iconst_encode : ℤ → Option ℕ
iconst_encode (negsuc n) = if n == 0 then some 0x02 else none
iconst_encode (pos n) =
    if n == 0
    then some 0x03
    else if n == 1
    then some 0x04
    else if n == 2
    then some 0x05
    else if n == 3
    then some 0x06
    else if n == 4
    then some 0x07
    else if n == 5
    then some 0x08
    else none

-- The operands lie between -1 and 5, so the `i32` operations do not overflow.
unfoldable pub fold_op : ℕ → ℤ → ℤ → Option ℤ
fold_op byte a b =
    if byte == 0x60
    then some (a +ℤ b)
    else if byte == 0x64
    then some (a -ℤ b)
    else if byte == 0x68
    then some (a *ℤ b)
    else none

abbrev pub bind {ℓ κ} : {A : Type ℓ} {B : Type κ} → Option A → (A → Option B) → Option B
bind none f = none
bind (some a) f = f a

-- The byte that replaces three bytes, if they fold.
unfoldable pub folded : ℕ → ℕ → ℕ → Option ℕ
folded b0 b1 b2 =
    bind (iconst_value b0) λ a. bind (iconst_value b1) λ b. bind (fold_op b2 a b) iconst_encode

-- The loop: the bytes that it leaves, and whether it changed any.
unfoldable pub fold_loop : List ℕ → List ℕ × Bool
fold_loop [] = ([], false)
fold_loop (b0 ∷ []) = (b0 ∷ [], false)
fold_loop (b0 ∷ b1 ∷ []) = (b0 ∷ b1 ∷ [], false)
fold_loop (b0 ∷ b1 ∷ b2 ∷ rest) = elim (folded b0 b1 b2) [
  | some encoded ↦ (encoded ∷ 0x00 ∷ 0x00 ∷ (fold_loop rest).0, true)
  | none ↦ let (bytes, changed) = fold_loop (b1 ∷ b2 ∷ rest) in (b0 ∷ bytes, changed)
]

unfoldable pub constant_fold_bytecode : List ℕ → Option (List ℕ)
constant_fold_bytecode code =
    let (result, changed) = fold_loop code in if changed then some result else none

pub record Optimizer : Type 0 where
  pub inline_threshold : ℕ
  pub max_inline_depth : ℕ

abbrev pub new : Optimizer
new = record { inline_threshold = 100; max_inline_depth = 10 }

unfoldable pub should_inline : ℕ → Optimizer → Bool
should_inline code_len o = ltb code_len o.inline_threshold
