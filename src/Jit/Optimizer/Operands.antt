-- ===== src/Jit/Optimizer/Operands.antt =====
-- src/vm/jit/optimizer.rs: the constant-fold pass on code with operand bytes.
use jvm_rs.Prelude.{
  ℕ, ◌<◌, ◌≡◌, ◌≢◌, refl, inl, inr, Bool, true, false, ◌||◌, Option, none, some, [], ◌∷◌, arith,
  Bool-cases, all_below, all_below-true, not,
}
use jvm_rs.Prelude.Int.{
  ℤ, pos, negsuc, from_u8, wrapping_mul, ◌*ℤ◌, to_u32, from_u32, eqb_ℤ, eqb_ℤ_refl,
}
use jvm_rs.Jit.Optimizer.{
  iconst_value, iconst_encode, fold_op, folded, fold_loop, constant_fold_bytecode,
}

-- A pair of bytes is no exception to the claim below.
abbrev differs : Option ℕ → Option ℤ → ℕ → Bool
differs none y v = true
differs (some e) none v = true
differs (some e) (some y) v =
    eqb_ℤ y (pos 1) || not (eqb_ℤ (from_u8 e) (wrapping_mul (from_u8 v) y))

differs_table :
    all_below 9 (λ v. all_below 9 (λ c. differs (folded v c 0x68) (iconst_value c) v)) ≡ true
unfolding all_below folded iconst_value iconst_encode fold_op ◌*ℤ◌ from_u8 wrapping_mul to_u32
    from_u32
differs_table = refl

iconst_value-lt : (byte : ℕ) {x : ℤ} → iconst_value byte ≡ some x → byte < 9
unfolding iconst_value
iconst_value-lt byte h = ground arith

eqb_ℤ→eq : (a b : ℤ) → eqb_ℤ a b ≡ true → a ≡ b
eqb_ℤ→eq (pos a) (pos b) h = ground arith
eqb_ℤ→eq (negsuc a) (negsuc b) h = ground arith
eqb_ℤ→eq (pos a) (negsuc b) h = cc
eqb_ℤ→eq (negsuc a) (pos b) h = cc

differs-ne :
    (e v : ℕ) (y : ℤ)
    → differs (some e) (some y) v ≡ true
    → y ≢ pos 1
    → from_u8 e ≢ wrapping_mul (from_u8 v) y
differs-ne e v y h ne same = elim (Bool-cases (eqb_ℤ y (pos 1))) [
  | inl one ↦ ne (eqb_ℤ→eq y (pos 1) one)
  | inr other ↦
      let equal : eqb_ℤ (from_u8 e) (wrapping_mul (from_u8 v) y) ≡ true =
        rw same (eqb_ℤ_refl (wrapping_mul (from_u8 v) y)) in
      let contra : false ≡ true = rw (other, equal) at h in cc
]

bipush_alone : (v c : ℕ) → folded 0x10 v c ≡ none
unfolding folded iconst_value
bipush_alone v c = refl

fold_skips :
    (v c : ℕ)
    → let (bytes, changed) = fold_loop (v ∷ c ∷ 0x68 ∷ []) in
      fold_loop (0x10 ∷ v ∷ c ∷ 0x68 ∷ []) ≡ (0x10 ∷ bytes, changed)
unfolding fold_loop
fold_skips v c = rw (fold_loop, bipush_alone v c)

fold_once :
    (v c : ℕ) {e : ℕ}
    → folded v c 0x68 ≡ some e
    → fold_loop (v ∷ c ∷ 0x68 ∷ []) ≡ (e ∷ 0x00 ∷ 0x00 ∷ [], true)
unfolding fold_loop
fold_once v c f = rw (fold_loop, f)

-- `bipush v; iconst; imul`, where the byte v is also that of a constant and the product that the pass
-- sees can be encoded, is rewritten to `bipush e; nop; nop`. Unless the second factor is one, the
-- constant that is then pushed is not the product of v and that factor.
pub constant_fold_bytecode-bipush :
    (v c : ℕ) (x y : ℤ) (e : ℕ)
    → iconst_value v ≡ some x
    → iconst_value c ≡ some y
    → folded v c 0x68 ≡ some e
    → y ≢ pos 1
    → (constant_fold_bytecode (0x10 ∷ v ∷ c ∷ 0x68 ∷ []) ≡ some (0x10 ∷ e ∷ 0x00 ∷ 0x00 ∷ []))
      × (from_u8 e ≢ wrapping_mul (from_u8 v) y)
unfolding constant_fold_bytecode
constant_fold_bytecode-bipush v c x y e hx hy fold ne =
    let row = all_below-true 9 _ differs_table v (iconst_value-lt v hx) in
    let entry = all_below-true 9 _ row c (iconst_value-lt c hy) in
    (rw (fold_skips v c, fold_once v c fold), differs-ne e v y (rw (fold, hy) at entry) ne)
