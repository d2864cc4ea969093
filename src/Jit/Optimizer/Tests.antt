-- ===== src/Jit/Optimizer/Tests.antt =====
-- The theorems on the constant-fold pass of src/vm/jit/optimizer.rs at small code.
use jvm_rs.Prelude.{ℕ, ◌+◌, ◌≡◌, ◌≢◌, refl, none, some, List, [], ◌∷◌, length, arith}
use jvm_rs.Prelude.Int.{ℤ, pos, from_u8, wrapping_add, wrapping_mul, ◌+ℤ◌, ◌*ℤ◌, to_u32, from_u32}
use jvm_rs.Types.Value.{ok, err, invalid_opcode, int, as_int}
use jvm_rs.Types.Action.{pure}
use jvm_rs.Frame.Ops.{push, pop}
use jvm_rs.Thread.{current_frame_mut}
use jvm_rs.Interpreter.{execute_iconst, execute_iadd, int_binary}
use jvm_rs.Interpreter.Dispatch.{Step, completes, fetch_opcode, execute_opcode}
use jvm_rs.Opcode.{Opcode}
use jvm_rs.Opcode.FromByte.{from_byte}
use jvm_rs.Interpreter.Tests.{frame}
use jvm_rs.Interpreter.Arithmetic.{with_stack, thread}
use jvm_rs.Jit.Optimizer.{
  iconst_value, iconst_encode, fold_op, folded, fold_loop, constant_fold_bytecode,
}
use jvm_rs.Jit.Optimizer.Engine.{run_byte, run_code}
use jvm_rs.Jit.Optimizer.Meaning.{constant_fold_bytecode_run}
use jvm_rs.Jit.Optimizer.Refused.{at, constant_fold_bytecode-refused}
use jvm_rs.Jit.Optimizer.Operands.{constant_fold_bytecode-bipush}

-- An engine that skips every byte that is no opcode, and every other opcode.
abbrev skip : ℕ → Step
skip byte = pure none

abbrev nothing : Opcode → Step
nothing opcode = pure none

-- `iconst_2; iconst_3; iadd` becomes `iconst_5; nop; nop`.
constant_fold_bytecode_run_example :
    (length {A = ℕ} (0x08 ∷ 0x00 ∷ 0x00 ∷ []) ≡ length {A = ℕ} (0x05 ∷ 0x06 ∷ 0x60 ∷ []))
    × (run_code skip nothing (0x08 ∷ 0x00 ∷ 0x00 ∷ []) (thread (frame ∷ []))
        ≡ (ok none, thread (with_stack frame (int (pos 5) ∷ []) ∷ [])))
unfolding constant_fold_bytecode fold_loop folded iconst_value iconst_encode fold_op ◌+ℤ◌ run_code
    run_byte from_byte execute_opcode execute_iconst execute_iadd int_binary current_frame_mut push
    pop as_int wrapping_add to_u32 from_u32
constant_fold_bytecode_run_example =
    constant_fold_bytecode_run skip nothing (0x05 ∷ 0x06 ∷ 0x60 ∷ []) (0x08 ∷ 0x00 ∷ 0x00 ∷ [])
      (thread (frame ∷ [])) (thread (with_stack frame (int (pos 5) ∷ []) ∷ [])) none (λ u. refl)
      refl refl

-- `bipush 4; iconst_2; imul` pushes 8; it becomes `bipush 5`.
constant_fold_bytecode-bipush_example :
    (constant_fold_bytecode (0x10 ∷ 0x04 ∷ 0x05 ∷ 0x68 ∷ [])
      ≡ some (0x10 ∷ 0x05 ∷ 0x00 ∷ 0x00 ∷ []))
    × (from_u8 0x05 ≢ wrapping_mul (from_u8 0x04) (pos 2))
unfolding iconst_value folded fold_op iconst_encode ◌*ℤ◌
constant_fold_bytecode-bipush_example =
    constant_fold_bytecode-bipush 0x04 0x05 (pos 1) (pos 2) 0x05 refl refl refl (λ e. ground arith)

-- The interpreter cannot run `iconst_5; nop; nop`.
constant_fold_bytecode-refused_example :
    let result : List ℕ = 0x08 ∷ 0x00 ∷ 0x00 ∷ [] in
    (i : ℕ) × (op : Opcode) × (n : ℤ) × (fetch_opcode (at frame result i [])
      ≡ (ok op, at frame result (i + 1) []))
    × (execute_opcode nothing op ≡ completes (execute_iconst n))
    × (fetch_opcode (at frame result (i + 1) [])
        ≡ (err (invalid_opcode 0x00 (i + 1)), at frame result (i + 2) []))
unfolding constant_fold_bytecode fold_loop folded iconst_value iconst_encode fold_op ◌+ℤ◌
constant_fold_bytecode-refused_example =
    constant_fold_bytecode-refused nothing frame [] (0x05 ∷ 0x06 ∷ 0x60 ∷ [])
      (0x08 ∷ 0x00 ∷ 0x00 ∷ []) refl
