-- ===== src/Verify/Scanned.antt =====
-- src/vm/verify.rs: the loop of `scan_method` against its fuel.
use jvm_rs.Prelude.{
  ℕ, zero, suc, ◌+◌, ◌≤◌, ◌<◌, ◌≡◌, refl, Bool, true, false, Option, none, some, List, [], ◌∷◌,
  if◌then◌else◌, ltb, length, arith,
}
use jvm_rs.Types.Value.{Result, ok, err, panic, unexpected_eof}
use jvm_rs.Types.Method.{Method}
use jvm_rs.Types.Fallible.{◌>>=◌, ◌>>◌}
use jvm_rs.Verify.Instruction.{DecodedInstruction}
use jvm_rs.Verify.Scan.{
  scan_instruction, scan_from, scan_method, validate_operand, check_all_targets,
}
use jvm_rs.Verify.Ensures.{Ensures, returns, bind-Ensures, then-Ensures}
use jvm_rs.Verify.Advance.{Advances}
use jvm_rs.Verify.Advance.Decode.{decode_instruction-Advances}

scan_instruction-Ensures :
    (method : Method) (pc : ℕ) → Ensures (λ insn. pc < insn.next_pc) (scan_instruction method pc)
unfolding scan_instruction
scan_instruction-Ensures method pc =
    let P : DecodedInstruction → Type 0 = λ insn. pc < insn.next_pc in
    bind-Ensures (Advances method.code pc) P _ _ (decode_instruction-Advances method.code pc)
      λ insn h.
        then-Ensures P
          (if ltb (length method.code) insn.next_pc then err (unexpected_eof pc) else ok tt) _
          λ u. then-Ensures P (validate_operand method insn insn.opcode) _ λ v. returns insn h.1

abbrev pub Scans : Option (Result (List DecodedInstruction)) → Type 0
Scans scanned = (r : Result (List DecodedInstruction)) × (scanned ≡ some r)

-- One round of the scan, if the rest of it ends.
scan_round :
    (fuel : ℕ) (method : Method) (pc : ℕ)
    → ((insn : DecodedInstruction) → pc < insn.next_pc → Scans (scan_from fuel method insn.next_pc))
    → Scans (scan_from (suc fuel) method pc)
unfolding scan_from
scan_round fuel method pc rest =
    go (ltb pc (length method.code)) (scan_instruction method pc)
      (scan_instruction-Ensures method pc) rest
  where
    cons :
        (insn : DecodedInstruction) (o : Option (Result (List DecodedInstruction)))
        → Scans o
        → Scans
            (elim o [ none ↦ none | some decoded ↦ some (decoded >>= λ rest. ok (insn ∷ rest)) ])
    cons insn none (r, e) = absurd (cc)
    cons insn (some d) (r, e) = (_, refl)

    go :
        (b : Bool) (r : Result DecodedInstruction)
        → Ensures (λ insn. pc < insn.next_pc) r
        → ((insn : DecodedInstruction)
            → pc < insn.next_pc
            → Scans (scan_from fuel method insn.next_pc))
        → Scans (elim b [
          | false ↦ some (ok [])
          | true ↦ elim r [
            | err e ↦ some (err e)
            | panic ↦ some panic
            | ok insn ↦ elim (scan_from fuel method insn.next_pc) [
              | none ↦ none
              | some decoded ↦ some (decoded >>= λ rest. ok (insn ∷ rest))
            ]
          ]
        ])
    go false r h f = (_, refl)
    go true (err e) h f = (_, refl)
    go true panic h f = (_, refl)
    go true (ok insn) (returns _ lt) f = cons insn (scan_from fuel method insn.next_pc) (f insn lt)

scan_stops :
    (fuel : ℕ) (method : Method) (pc : ℕ)
    → length method.code ≤ pc
    → Scans (scan_from (suc fuel) method pc)
unfolding scan_from
scan_stops fuel method pc le =
    let e : ltb pc (length method.code) ≡ false = ground arith in (ok [], rw (scan_from, e) refl)

-- The scan ends, with fuel for each address that is left.
scan_from-Scans :
    (fuel : ℕ) (method : Method) (pc : ℕ)
    → length method.code ≤ pc + fuel
    → Scans (scan_from (suc fuel) method pc)
scan_from-Scans zero method pc le = scan_stops 0 method pc (omega arith)
scan_from-Scans (suc fuel) method pc le =
    scan_round (suc fuel) method pc
      λ insn lt. scan_from-Scans fuel method insn.next_pc (omega arith)

pub scan_method-Scans : (method : Method) → Scans (scan_method method)
unfolding scan_method
scan_method-Scans method =
    go (scan_from (suc (length method.code)) method 0) (scan_from-Scans _ method 0 (omega arith))
  where
    len : ℕ
    len = length method.code

    go :
        (o : Option (Result (List DecodedInstruction)))
        → Scans o
        → Scans (elim o [
          | none ↦ none
          | some scanned ↦
              some (scanned >>= λ decoded. check_all_targets len decoded decoded >> ok decoded)
        ])
    go none (r, e) = absurd (cc)
    go (some scanned) h = (_, refl)
