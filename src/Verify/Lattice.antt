-- ===== src/Verify/Lattice.antt =====
-- src/vm/verify.rs: `merge_type` against an order of the types.
use jvm_rs.Prelude.{
  ℕ, ◌≡◌, sym, ◌∙◌, String, ◌≢◌, refl, ap, ◌↔◌, inl, inr, true, ◌||◌, Option, none, some, List, [],
  ◌∷◌, Bool-cases, arith,
}
use jvm_rs.Verify.Types.{
  VerifyType, top, int, float, long, double, null, return_address, reference, uninitialized_this,
  uninitialized, merged, failed, eq_bytes, eq_name, eq_type, is_top, merge_references, merge_type,
}

-- What a local or a stack slot of one type may hold, one of the other may.
pub data Below : VerifyType → VerifyType → Type 0 where
  same : (x : VerifyType) → Below x x
  null_below : (name : Option (List ℕ)) → Below null (reference name)
  reference_below : (name : Option (List ℕ)) → Below (reference name) (reference none)
  top_above : (x : VerifyType) → Below x top

pub eq_bytes-≡ : (a b : List ℕ) → eq_bytes a b ≡ true → a ≡ b
unfolding eq_bytes
eq_bytes-≡ [] [] e = refl
eq_bytes-≡ [] (y ∷ b) e = absurd (cc)
eq_bytes-≡ (x ∷ a) [] e = absurd (cc)
eq_bytes-≡ (x ∷ a) (y ∷ b) e = ground (arith, eq_bytes-≡ a b)

pub eq_bytes_refl : (a : List ℕ) → eq_bytes a a ≡ true
unfolding eq_bytes
eq_bytes_refl [] = refl
eq_bytes_refl (x ∷ a) = ground (arith, eq_bytes_refl a)

eq_name-≡ : (a b : Option (List ℕ)) → eq_name a b ≡ true → a ≡ b
unfolding eq_name
eq_name-≡ none none e = refl
eq_name-≡ none (some b) e = absurd (cc)
eq_name-≡ (some a) none e = absurd (cc)
eq_name-≡ (some a) (some b) e = ap some (eq_bytes-≡ a b e)

pub eq_type_refl : (x : VerifyType) → eq_type x x ≡ true
unfolding eq_type eq_name
eq_type_refl top = refl
eq_type_refl int = refl
eq_type_refl float = refl
eq_type_refl long = refl
eq_type_refl double = refl
eq_type_refl null = refl
eq_type_refl (return_address pc) = ground arith
eq_type_refl (reference none) = refl
eq_type_refl (reference (some a)) = eq_bytes_refl a
eq_type_refl uninitialized_this = refl
eq_type_refl (uninitialized pc) = ground arith

pub eq_type-≡ : (x y : VerifyType) → eq_type x y ≡ true → x ≡ y
unfolding eq_type
eq_type-≡ (reference a) (reference b) e = ap reference (eq_name-≡ a b e)
eq_type-≡ (reference a) top e = absurd (cc)
eq_type-≡ (reference a) y e = absurd (cc)
eq_type-≡ top y e = ground arith
eq_type-≡ x y e = ground arith

-- The merge of two types that differ: the upper bound where it gives one.
upper_references : (x y z : VerifyType) → merge_references x y ≡ merged z → Below x z × Below y z
unfolding merge_references
upper_references null (reference name) z e =
    let e' : reference name ≡ z = cc in rw⁻¹ e' (null_below name, same (reference name))
upper_references null y z e = absurd (cc)
upper_references (reference a) null z e =
    let e' : reference a ≡ z = cc in rw⁻¹ e' (same (reference a), null_below a)
upper_references (reference a) (reference b) z e =
    let e' : reference none ≡ z = cc in rw⁻¹ e' (reference_below a, reference_below b)
upper_references (reference a) y z e = absurd (cc)
upper_references int y z e = absurd (cc)
upper_references x y z e = absurd (cc)

pub upper : (x y z : VerifyType) → merge_type x y ≡ merged z → Below x z × Below y z
unfolding merge_type
upper x y z e = elim (Bool-cases (eq_type x y)) [
  | inl h ↦
      let e' : x ≡ z = ground (arith, e, h) in
      let e'' : y ≡ z = ground (arith, e', eq_type-≡ x y h) in (rw e' (same z), rw e'' (same z))
  | inr h ↦ elim (Bool-cases (is_top x || is_top y)) [
    | inl t ↦ let e' : top ≡ z = ground (arith, e, h, t) in rw⁻¹ e' (top_above x, top_above y)
    | inr t ↦ upper_references x y z (ground (arith, e, h, t))
  ]
]

pub Below-trans : (x y z : VerifyType) → Below x y → Below y z → Below x z
Below-trans x y z (same _) k = k
Below-trans x y z (null_below _) (same _) = null_below _
Below-trans x y z (null_below _) (reference_below _) = null_below none
Below-trans x y z (null_below _) (top_above _) = top_above null
Below-trans x y z (reference_below _) (same _) = reference_below _
Below-trans x y z (reference_below _) (reference_below _) = reference_below _
Below-trans x y z (reference_below _) (top_above _) = top_above _
Below-trans x y z (top_above _) (same _) = top_above x
Below-trans x y z (top_above _) (top_above _) = top_above x

merge_type_refl : (x : VerifyType) → merge_type x x ≡ merged x
unfolding merge_type
merge_type_refl x = ground (arith, eq_type_refl x)

references_least :
    (a b : Option (List ℕ)) (z : VerifyType)
    → merge_type (reference a) (reference b) ≡ merged z
    → Below z (reference none)
unfolding merge_type merge_references is_top
references_least a b z e = elim (Bool-cases (eq_type (reference a) (reference b))) [
  | inl h ↦ let e' : reference a ≡ z = ground (arith, e, h) in rw⁻¹ e' (reference_below a)
  | inr h ↦ let e' : reference none ≡ z = ground (arith, e, h) in rw⁻¹ e' (same (reference none))
]

from_merged : (x z w : VerifyType) → merged x ≡ merged z → Below x w → Below z w
from_merged x z w e h = let e' : x ≡ z = cc in rw⁻¹ e' h

least : (x y z w : VerifyType) → merge_type x y ≡ merged z → Below x w → Below y w → Below z w
unfolding merge_type merge_references eq_type is_top
least x y z w e (top_above _) k = top_above z
least x y z w e (same _) (top_above _) = top_above z
least x y z w e (null_below c) (same _) = from_merged (reference c) z _ e (same _)
least x y z w e (null_below c) (null_below _) = from_merged null z _ e (null_below c)
least x y z w e (null_below _) (reference_below c) =
    from_merged (reference c) z _ e (reference_below c)
least x y z w e (reference_below a) (same _) = references_least a none z e
least x y z w e (reference_below a) (null_below _) =
    from_merged (reference a) z _ e (reference_below a)
least x y z w e (reference_below a) (reference_below b) = references_least a b z e
least x y z w e (same v) (same _) = from_merged v z _ (sym (merge_type_refl v) ∙ e) (same v)
least x y z w e (same _) (null_below c) = from_merged (reference c) z _ e (same _)
least x y z w e (same _) (reference_below b) = references_least none b z e

-- Where two types merge into a third, it is their least upper bound: what lies above both is what lies
-- above the third.
pub merge_type-Below :
    (x y z w : VerifyType) → merge_type x y ≡ merged z → (Below x w × Below y w) ↔ Below z w
merge_type-Below x y z w e = (
  λ h. least x y z w e h.0 h.1,
  λ h. let (a, b) = upper x y z e in (Below-trans x z w a h, Below-trans y z w b h),
)

references_merge :
    (a b : Option (List ℕ)) (reason : String)
    → merge_type (reference a) (reference b) ≢ failed reason
unfolding merge_type merge_references is_top
references_merge a b reason e = ground (arith, e)

only_top :
    (x y w : VerifyType) (reason : String)
    → merge_type x y ≡ failed reason
    → Below x w
    → Below y w
    → w ≡ top
unfolding merge_type merge_references eq_type is_top
only_top x y w reason e (top_above _) k = refl
only_top x y w reason e (same _) (top_above _) = refl
only_top x y w reason e (null_below c) (same _) = absurd (cc)
only_top x y w reason e (null_below c) (null_below _) = absurd (cc)
only_top x y w reason e (null_below _) (reference_below c) = absurd (cc)
only_top x y w reason e (reference_below a) (same _) = absurd (references_merge a none reason e)
only_top x y w reason e (reference_below a) (null_below _) = absurd (cc)
only_top x y w reason e (reference_below a) (reference_below b) =
    absurd (references_merge a b reason e)
only_top x y w reason e (same v) (same _) =
    let e' : merged v ≡ failed reason = sym (merge_type_refl v) ∙ e in absurd (cc)
only_top x y w reason e (same _) (null_below c) = absurd (cc)
only_top x y w reason e (same _) (reference_below b) = absurd (references_merge none b reason e)

-- Where two types do not merge, nothing but `top` lies above both.
pub merge_type-failed :
    (x y w : VerifyType) (reason : String)
    → merge_type x y ≡ failed reason
    → (Below x w × Below y w) ↔ (w ≡ top)
merge_type-failed x y w reason e =
    (λ h. only_top x y w reason e h.0 h.1, λ t. (rw t (top_above x), rw t (top_above y)))
