-- ===== src/Jit/Optimizer/Meaning.antt =====
-- src/vm/jit/optimizer.rs: the constant-fold pass and runs of straight-line code by the handlers of
-- src/vm/interpreter.rs.
use jvm_rs.Prelude.{
  ℕ, ◌≡◌, ◌∙◌, refl, sym, ap, inl, inr, Option, none, some, List, [], ◌∷◌, ◌==◌, length, arith,
  Bool-cases, ==_iff,
}
use jvm_rs.Prelude.Int.{
  ℤ, ◌+ℤ◌, ◌-ℤ◌, ◌*ℤ◌, wrapping_add, wrapping_sub, wrapping_mul, from_u32-to_u32, IsI32,
}
use jvm_rs.Types.Value.{ok, as_int}
use jvm_rs.Types.Action.{◌>>◌}
use jvm_rs.Frame.Defs.{Frame}
use jvm_rs.Frame.Ops.{push, pop}
use jvm_rs.Thread.{Thread, current_frame_mut}
use jvm_rs.Interpreter.{
  ExecutionResult, execute_iconst, execute_iadd, execute_isub, execute_imul, int_binary,
}
use jvm_rs.Interpreter.Dispatch.{Step, completes, execute_opcode}
use jvm_rs.Opcode.{Opcode}
use jvm_rs.Opcode.FromByte.{from_byte}
use jvm_rs.Jit.Optimizer.{iconst_value, fold_op, folded, fold_loop, constant_fold_bytecode}
use jvm_rs.Jit.Optimizer.Engine.{
  go_on, run_byte, run_code, step-ok, >>-run, iconst_lem, run_nop, run_completes, completes_run,
}
use jvm_rs.Jit.Optimizer.Loop.{
  encode_lem, bind-some, length-fold_loop, constant_fold_bytecode-fold_loop,
}

-- Two pushes and an `int` operation, where they succeed, do what one push of the result does.
push_push_op :
    (op : ℤ → ℤ → ℤ) (a b : ℤ) (t t' : Thread)
    → (execute_iconst a >> (execute_iconst b >> int_binary op)) t ≡ (ok tt, t')
    → execute_iconst (op a b) t ≡ (ok tt, t')
unfolding execute_iconst int_binary current_frame_mut push pop as_int
push_push_op op a b t t' h = go t.frames h
  where
    go :
        (fs : List Frame)
        → (execute_iconst a >> (execute_iconst b >> int_binary op)) (record { frames = fs })
          ≡ (ok tt, t')
        → execute_iconst (op a b) (record { frames = fs }) ≡ (ok tt, t')
    go [] q = cc
    go (f ∷ fs) q = ground arith

wrapping_exact :
    (a b : ℤ)
    → (IsI32 (a +ℤ b) → wrapping_add a b ≡ a +ℤ b)
      × (IsI32 (a -ℤ b) → wrapping_sub a b ≡ a -ℤ b)
      × (IsI32 (a *ℤ b) → wrapping_mul a b ≡ a *ℤ b)
unfolding wrapping_add wrapping_sub wrapping_mul
wrapping_exact a b = (from_u32-to_u32 (a +ℤ b), from_u32-to_u32 (a -ℤ b), from_u32-to_u32 (a *ℤ b))

module _ (unknown : ℕ → Step) (other : Opcode → Step) where
  run_iconst :
      (byte : ℕ) (a : ℤ)
      → iconst_value byte ≡ some a
      → run_byte unknown other byte ≡ completes (execute_iconst a)
  unfolding run_byte
  run_iconst byte a e = let (op, read, runs) = iconst_lem other byte a e in rw (run_byte, read) runs

  run_ops :
      (run_byte unknown other 0x60 ≡ completes (int_binary wrapping_add))
      × (run_byte unknown other 0x64 ≡ completes (int_binary wrapping_sub))
      × (run_byte unknown other 0x68 ≡ completes (int_binary wrapping_mul))
  unfolding run_byte from_byte execute_opcode execute_iadd execute_isub execute_imul
  run_ops = (refl, refl, refl)

  -- The instruction that is folded is the `int` operation that the pass computes.
  fold_op_lem :
      (byte : ℕ) (a b : ℤ) {val : ℤ}
      → fold_op byte a b ≡ some val
      → IsI32 val
      → (op : ℤ → ℤ → ℤ) × (run_byte unknown other byte ≡ completes (int_binary op))
        × (op a b ≡ val)
  unfolding fold_op
  fold_op_lem byte a b {val} h fits = elim (Bool-cases (byte == 0x60)) [
    | inl is_add ↦
        let e : a +ℤ b ≡ val = ground arith in
        (
          wrapping_add,
          ap (run_byte unknown other) ((==_iff byte 0x60).0 is_add) ∙ run_ops.0,
          (wrapping_exact a b).0 (rw e fits) ∙ e,
        )
    | inr no_add ↦ elim (Bool-cases (byte == 0x64)) [
      | inl is_sub ↦
          let e : a -ℤ b ≡ val = ground arith in
          (
            wrapping_sub,
            ap (run_byte unknown other) ((==_iff byte 0x64).0 is_sub) ∙ run_ops.1,
            (wrapping_exact a b).1 (rw e fits) ∙ e,
          )
      | inr no_sub ↦ elim (Bool-cases (byte == 0x68)) [
        | inl is_mul ↦
            let e : a *ℤ b ≡ val = ground arith in
            (
              wrapping_mul,
              ap (run_byte unknown other) ((==_iff byte 0x68).0 is_mul) ∙ run_ops.2,
              (wrapping_exact a b).2 (rw e fits) ∙ e,
            )
        | inr no_mul ↦ absurd (ground arith)
      ]
    ]
  ]

  -- Three instructions that are folded, and the one in their place.
  folded_run :
      (b0 b1 b2 : ℕ) (code : List ℕ) {e : ℕ} (t : Thread) {x : Option ExecutionResult} {t' : Thread}
      → folded b0 b1 b2 ≡ some e
      → run_code unknown other (b0 ∷ b1 ∷ b2 ∷ code) t ≡ (ok x, t')
      → (u : Thread) × (run_code unknown other code u ≡ (ok x, t'))
        × ((rest : List ℕ) → run_code unknown other (e ∷ rest) t ≡ run_code unknown other rest u)
  unfolding folded
  folded_run b0 b1 b2 code {e} t f h =
      let (a, e0, f1) = bind-some (iconst_value b0) _ f in
      let (b, e1, f2) = bind-some (iconst_value b1) _ f1 in
      let (val, e2, f3) = bind-some (fold_op b2 a b) _ f2 in
      let (decoded, fits) = encode_lem val f3 in
      let (op, runs, result) = fold_op_lem b2 a b e2 fits in
      let ia = execute_iconst a in
      let ib = execute_iconst b in
      let (u0, h0, k0) =
        run_completes unknown other b0 (b1 ∷ b2 ∷ code) ia t (run_iconst b0 a e0) h in
      let (u1, h1, k1) = run_completes unknown other b1 (b2 ∷ code) ib u0 (run_iconst b1 b e1) k0 in
      let (u2, h2, k2) = run_completes unknown other b2 code (int_binary op) u1 runs k1 in
      let three : (ia >> (ib >> int_binary op)) t ≡ (ok tt, u2) =
        >>-run ia (ib >> int_binary op) t h0 ∙ (>>-run ib (int_binary op) u0 h1 ∙ h2) in
      let one : execute_iconst val t ≡ (ok tt, u2) =
        ap (λ (v : ℤ). execute_iconst v t) (sym result) ∙ push_push_op op a b t u2 three in
      (
        u2,
        k2,
        λ rest.
            completes_run unknown other e rest (execute_iconst val) t (run_iconst e val decoded)
              one,
      )

  -- Code that ends without an error still does so after the pass, in the same way.
  fold_loop_run :
      ((u : Thread) → unknown 0x00 u ≡ (ok none, u))
      → (code : List ℕ) (t : Thread) {x : Option ExecutionResult} {t' : Thread}
      → run_code unknown other code t ≡ (ok x, t')
      → run_code unknown other (fold_loop code).0 t ≡ (ok x, t')
  unfolding fold_loop run_code
  fold_loop_run skips [] t h = h
  fold_loop_run skips (b0 ∷ []) t h = h
  fold_loop_run skips (b0 ∷ b1 ∷ []) t h = h
  fold_loop_run skips (b0 ∷ b1 ∷ b2 ∷ rest) t {x} {t'} h =
      go (folded b0 b1 b2) refl (λ u. fold_loop_run skips rest u)
        (λ u. fold_loop_run skips (b1 ∷ b2 ∷ rest) u)
    where
      Keeps : List ℕ → Type 0
      Keeps code =
          (u : Thread)
          → run_code unknown other code u ≡ (ok x, t')
          → run_code unknown other (fold_loop code).0 u ≡ (ok x, t')

      go_on_lem :
          (y : Option ExecutionResult) (u : Thread)
          → Keeps (b1 ∷ b2 ∷ rest)
          → go_on y (run_code unknown other (b1 ∷ b2 ∷ rest)) u ≡ (ok x, t')
          → go_on y (run_code unknown other (fold_loop (b1 ∷ b2 ∷ rest)).0) u ≡ (ok x, t')
      go_on_lem none u next q = next u q
      go_on_lem (some v) u next q = q

      go :
          (o : Option ℕ)
          → folded b0 b1 b2 ≡ o
          → Keeps rest
          → Keeps (b1 ∷ b2 ∷ rest)
          → run_code unknown other (fold_loop (b0 ∷ b1 ∷ b2 ∷ rest)).0 t ≡ (ok x, t')
      go (some e) f after next =
          let (u, k, one) = folded_run b0 b1 b2 rest t f h in
          let out = (fold_loop rest).0 in
          rw (fold_loop, f)
            (one (0x00 ∷ 0x00 ∷ out)
              ∙ (run_nop unknown other skips (0x00 ∷ out) u
                  ∙ (run_nop unknown other skips out u ∙ after u k)))
      go none f after next =
          let (y, u, h0, k0) = step-ok (run_byte unknown other b0) _ t h in
          rw (fold_loop, f) (rw h0 (go_on_lem y u next k0))

-- On an engine that runs the interpreter's handlers and takes the byte 0x00, which is no opcode of
-- the program's own interpreter, as an instruction that does nothing: where the pass rewrites
-- straight-line code without operand bytes, the new code has the same length, and if the old code
-- ends without an error, by its end or a return, then the new code does so too, with the same result
-- and in the same final state of the thread, whatever the instructions do that the pass leaves
-- alone.
pub constant_fold_bytecode_run :
    (unknown : ℕ → Step) (other : Opcode → Step) (code result : List ℕ) (t t' : Thread)
    (x : Option ExecutionResult)
    → ((u : Thread) → unknown 0x00 u ≡ (ok none, u))
    → constant_fold_bytecode code ≡ some result
    → run_code unknown other code t ≡ (ok x, t')
    → (length result ≡ length code) × (run_code unknown other result t ≡ (ok x, t'))
constant_fold_bytecode_run unknown other code result t t' x skips f h =
    let (same, _) = constant_fold_bytecode-fold_loop code result f in
    (rw (← same) (length-fold_loop code), rw (← same) (fold_loop_run unknown other skips code t h))
