-- ===== src/Jit/Optimizer/Loop.antt =====
-- src/vm/jit/optimizer.rs: the loop of the constant-fold pass, and the bytes that it leaves.
use jvm_rs.Prelude.{
  ℕ, suc, ◌≡◌, refl, Bool, true, false, Option, none, some, List, [], ◌∷◌, if◌then◌else◌, length,
  get_elem?, arith,
}
use jvm_rs.Prelude.Int.{ℤ, pos, negsuc, IsI32}
use jvm_rs.Jit.Optimizer.{
  iconst_value, iconst_encode, fold_op, folded, fold_loop, constant_fold_bytecode, bind,
}

pub encode_lem :
    (val : ℤ) {e : ℕ} → iconst_encode val ≡ some e → (iconst_value e ≡ some val) × IsI32 val
unfolding iconst_encode iconst_value
encode_lem (pos n) h = ground arith
encode_lem (negsuc n) h = ground arith

pub bind-some :
    {A B : Type 0} (o : Option A) (f : A → Option B) {b : B}
    → bind o f ≡ some b
    → (a : A) × (o ≡ some a) × (f a ≡ some b)
bind-some none f h = cc
bind-some (some a) f h = (a, refl, h)

-- A byte that the pass writes for a fold is that of a constant.
folded_lem :
    (b0 b1 b2 : ℕ) {e : ℕ} → folded b0 b1 b2 ≡ some e → (val : ℤ) × (iconst_value e ≡ some val)
unfolding folded
folded_lem b0 b1 b2 f =
    let (a, e0, f1) = bind-some (iconst_value b0) _ f in
    let (b, e1, f2) = bind-some (iconst_value b1) _ f1 in
    let (val, e2, f3) = bind-some (fold_op b2 a b) _ f2 in (val, (encode_lem val f3).0)

-- At some index of the code stands the byte of a constant, and after it the byte 0x00.
abbrev pub HasFold : List ℕ → Type 0
HasFold code =
    (i : ℕ) × (e : ℕ) × (val : ℤ) × (iconst_value e ≡ some val)
    × (get_elem? code i ≡ some e)
    × (get_elem? code (suc i) ≡ some 0x00)

HasFold-cons : (b : ℕ) (code : List ℕ) → HasFold code → HasFold (b ∷ code)
HasFold-cons b code (i, e, val, decoded, here, after) = (suc i, e, val, decoded, here, after)

pub fold_loop-HasFold : (code : List ℕ) → (fold_loop code).1 ≡ true → HasFold (fold_loop code).0
unfolding fold_loop
fold_loop-HasFold [] h = absurd (cc)
fold_loop-HasFold (b0 ∷ []) h = absurd (cc)
fold_loop-HasFold (b0 ∷ b1 ∷ []) h = absurd (cc)
fold_loop-HasFold (b0 ∷ b1 ∷ b2 ∷ rest) h =
    go (folded b0 b1 b2) refl h (fold_loop-HasFold (b1 ∷ b2 ∷ rest))
  where
    go :
        (o : Option ℕ)
        → folded b0 b1 b2 ≡ o
        → (fold_loop (b0 ∷ b1 ∷ b2 ∷ rest)).1 ≡ true
        → ((fold_loop (b1 ∷ b2 ∷ rest)).1 ≡ true → HasFold (fold_loop (b1 ∷ b2 ∷ rest)).0)
        → HasFold (fold_loop (b0 ∷ b1 ∷ b2 ∷ rest)).0
    go (some e) f h next =
        let (val, decoded) = folded_lem b0 b1 b2 f in
        rw (fold_loop, f) (0, e, val, decoded, refl, refl)
    go none f h next =
        let later = rw (fold_loop, f) at h in
        rw (fold_loop, f) (HasFold-cons b0 (fold_loop (b1 ∷ b2 ∷ rest)).0 (next later))

pub length-fold_loop : (code : List ℕ) → length (fold_loop code).0 ≡ length code
unfolding fold_loop
length-fold_loop [] = refl
length-fold_loop (b0 ∷ []) = refl
length-fold_loop (b0 ∷ b1 ∷ []) = refl
length-fold_loop (b0 ∷ b1 ∷ b2 ∷ rest) =
    go (folded b0 b1 b2) refl (length-fold_loop rest) (length-fold_loop (b1 ∷ b2 ∷ rest))
  where
    go :
        (o : Option ℕ)
        → folded b0 b1 b2 ≡ o
        → length (fold_loop rest).0 ≡ length rest
        → length (fold_loop (b1 ∷ b2 ∷ rest)).0 ≡ length (b1 ∷ b2 ∷ rest)
        → length (fold_loop (b0 ∷ b1 ∷ b2 ∷ rest)).0 ≡ length (b0 ∷ b1 ∷ b2 ∷ rest)
    go (some e) f after next = rw (fold_loop, f) (omega (arith, after))
    go none f after next = rw (fold_loop, f) (omega (arith, next))

-- The new code is what the loop leaves, and the loop has changed it.
pub constant_fold_bytecode-fold_loop :
    (code result : List ℕ)
    → constant_fold_bytecode code ≡ some result
    → ((fold_loop code).0 ≡ result) × ((fold_loop code).1 ≡ true)
unfolding constant_fold_bytecode
constant_fold_bytecode-fold_loop code result f = changed (fold_loop code).1 f
  where
    changed :
        (b : Bool)
        → (if b then some (fold_loop code).0 else none) ≡ some result
        → ((fold_loop code).0 ≡ result) × (b ≡ true)
    changed true e = (cc, refl)
    changed false e = cc
