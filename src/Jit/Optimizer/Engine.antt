-- ===== src/Jit/Optimizer/Engine.antt =====
-- Runs of straight-line code without operand bytes by the interpreter's handlers, for the constant
-- folding of src/vm/jit/optimizer.rs.
use jvm_rs.Prelude.{ℕ, zero, suc, ◌≡◌, refl, Option, none, some, List, [], ◌∷◌, arith}
use jvm_rs.Prelude.Int.{ℤ}
use jvm_rs.Types.Value.{Result, ok, err, panic}
use jvm_rs.Types.Action.{Action, pure, and_then, ◌>>=◌, ◌>>◌}
use jvm_rs.Thread.{Thread}
use jvm_rs.Opcode.{Opcode}
use jvm_rs.Opcode.FromByte.{from_byte}
use jvm_rs.Interpreter.{ExecutionResult, Handler, execute_iconst}
use jvm_rs.Interpreter.Dispatch.{Step, completes, execute_opcode}
use jvm_rs.Jit.Optimizer.{iconst_value}

-- After an instruction the code runs on, unless the instruction has ended the call.
abbrev pub go_on : Option ExecutionResult → Step → Step
go_on none k = k
go_on (some result) k = pure (some result)

-- An engine that runs the interpreter's handlers. What it does at a byte that is no opcode, and at
-- the other opcodes, is up to the engine.
module _ (unknown : ℕ → Step) (other : Opcode → Step) where
  -- One instruction without operand bytes.
  unfoldable pub run_byte : ℕ → Step
  run_byte byte = elim (from_byte byte) [
    | none ↦ unknown byte
    | some opcode ↦ execute_opcode other opcode
  ]

  -- Straight-line code.
  unfoldable pub run_code : List ℕ → Step
  run_code [] = pure none
  run_code (byte ∷ code) = do x ← run_byte byte; go_on x (run_code code)

-- A sequence that succeeds has succeeded in its first part.
pub step-ok :
    {A : Type 0} (m : Action Thread A) (k : A → Step) (t : Thread) {x : Option ExecutionResult}
    {t' : Thread}
    → (m >>= k) t ≡ (ok x, t')
    → (a : A) × (u : Thread) × (m t ≡ (ok a, u)) × (k a u ≡ (ok x, t'))
step-ok {A} m k t {x} {t'} h = go (m t) refl h
  where
    go :
        (r : Result A × Thread)
        → m t ≡ r
        → and_then r.0 k r.1 ≡ (ok x, t')
        → (a : A) × (u : Thread) × (m t ≡ (ok a, u)) × (k a u ≡ (ok x, t'))
    go (ok a, u) e q = (a, u, e, q)
    go (err y, u) e q = cc
    go (panic, u) e q = cc

pub >>-run : (m k : Handler) (t : Thread) {u : Thread} → m t ≡ (ok tt, u) → (m >> k) t ≡ k u
>>-run m k t e = rw e

-- A byte that the pass takes for a constant is the opcode that pushes that constant.
pub iconst_lem :
    (other : Opcode → Step) (byte : ℕ) (a : ℤ)
    → iconst_value byte ≡ some a
    → (op : Opcode) × (from_byte byte ≡ some op)
      × (execute_opcode other op ≡ completes (execute_iconst a))
unfolding iconst_value from_byte execute_opcode
iconst_lem other zero a e = absurd (cc)
iconst_lem other (suc zero) a e = absurd (cc)
iconst_lem other (suc (suc zero)) a e = (Opcode.iconst_m1, refl, cc)
iconst_lem other (suc (suc (suc zero))) a e = (Opcode.iconst0, refl, cc)
iconst_lem other (suc (suc (suc (suc zero)))) a e = (Opcode.iconst1, refl, cc)
iconst_lem other (suc (suc (suc (suc (suc zero))))) a e = (Opcode.iconst2, refl, cc)
iconst_lem other (suc (suc (suc (suc (suc (suc zero)))))) a e = (Opcode.iconst3, refl, cc)
iconst_lem other (suc (suc (suc (suc (suc (suc (suc zero))))))) a e = (Opcode.iconst4, refl, cc)
iconst_lem other (suc (suc (suc (suc (suc (suc (suc (suc zero)))))))) a e =
    (Opcode.iconst5, refl, cc)
iconst_lem other (suc (suc (suc (suc (suc (suc (suc (suc (suc n))))))))) a e = absurd (ground arith)

module _ (unknown : ℕ → Step) (other : Opcode → Step) where
  pub run_none :
      (byte : ℕ) (code : List ℕ) (t : Thread) {u : Thread}
      → run_byte unknown other byte t ≡ (ok none, u)
      → run_code unknown other (byte ∷ code) t ≡ run_code unknown other code u
  unfolding run_code
  run_none byte code t e = rw e

  pub run_nop :
      ((u : Thread) → unknown 0x00 u ≡ (ok none, u))
      → (code : List ℕ) (t : Thread)
      → run_code unknown other (0x00 ∷ code) t ≡ run_code unknown other code t
  unfolding run_byte from_byte
  run_nop skips code t = run_none 0x00 code t (skips t)

  -- An instruction that ends no call, where the code after it runs on.
  pub run_completes :
      (byte : ℕ) (code : List ℕ) (h : Handler) (t : Thread) {x : Option ExecutionResult}
      {t' : Thread}
      → run_byte unknown other byte ≡ completes h
      → run_code unknown other (byte ∷ code) t ≡ (ok x, t')
      → (u : Thread) × (h t ≡ (ok tt, u)) × (run_code unknown other code u ≡ (ok x, t'))
  unfolding run_code
  run_completes byte code h t {x} {t'} is e = go (h t) refl (rw is at e)
    where
      go :
          (r : Result (Unit {0}) × Thread)
          → h t ≡ r
          → (completes h >>= λ y. go_on y (run_code unknown other code)) t ≡ (ok x, t')
          → (u : Thread) × (h t ≡ (ok tt, u)) × (run_code unknown other code u ≡ (ok x, t'))
      go (ok tt, u) q e = (u, q, rw q at e)
      go (err y, u) q e = absurd (let e' = rw q at e in cc)
      go (panic, u) q e = absurd (let e' = rw q at e in cc)

  pub completes_run :
      (byte : ℕ) (code : List ℕ) (h : Handler) (t : Thread) {u : Thread}
      → run_byte unknown other byte ≡ completes h
      → h t ≡ (ok tt, u)
      → run_code unknown other (byte ∷ code) t ≡ run_code unknown other code u
  completes_run byte code h t is e = run_none byte code t (rw (is, e))
