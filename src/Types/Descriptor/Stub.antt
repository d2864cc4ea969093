-- ===== src/Types/Descriptor/Stub.antt =====
-- src/vm/types.rs: the value that a stub returns for a method descriptor.
use jvm_rs.Prelude.{
  ℕ, Bool, true, not, ◌&&◌, none, some, List, [], ◌∷◌, ◌++◌, ◌==◌, if◌then◌else◌, ◌≡◌, refl, arith,
}
use jvm_rs.Types.Value.{ok}
use jvm_rs.Types.Descriptor.{
  first, default_value_for_descriptor, after_close, stub_value, stub_return_value,
  parse_return_type,
}
use jvm_rs.Types.Descriptor.Parsing.{
  FieldType, class, rest_of, encode_all, method_descriptor, lacks, all_well_formed, kind_open,
  and-true, parse-method_descriptor,
}

-- No class name in the types has a `)`.
abbrev pub lack_paren : List FieldType → Bool
lack_paren [] = true
lack_paren (t ∷ ts) = lacks b')' (rest_of t) && lack_paren ts

after_close-append :
    (xs tail : List ℕ) → lacks b')' xs ≡ true → after_close (xs ++ tail) ≡ after_close tail
unfolding after_close
after_close-append [] tail h = refl
after_close-append (x ∷ xs) tail h =
    let (hx, hxs) = and-true (not (x == b')')) (lacks b')' xs) h in
    ground (arith, hx, after_close-append xs tail hxs)

after_close-encode_all :
    (args : List FieldType) (ret : List ℕ)
    → all_well_formed args ≡ true
    → lack_paren args ≡ true
    → after_close (encode_all args (b')' ∷ ret)) ≡ some ret
unfolding after_close
after_close-encode_all [] ret h p = refl
after_close-encode_all (t ∷ ts) ret h p =
    let (ht, hts) = and-true _ _ h in
    let (pt, pts) = and-true _ _ p in
    rw (
      kind_open t ht,
      after_close-append (rest_of t) (encode_all ts (b')' ∷ ret)) pt,
      after_close-encode_all ts ret hts pts,
    )

-- For a descriptor of well-formed argument types whose class names have no `)`, a stub returns the
-- default value of the return type, and nothing for `V` or a missing return type.
pub stub_return_value-method_descriptor :
    (args : List FieldType) (ret : List ℕ)
    → all_well_formed args ≡ true
    → lack_paren args ≡ true
    → stub_return_value (method_descriptor args ret) ≡ (elim (first ret) [
      | none ↦ none
      | some b ↦ if b == b'V' then none else some (default_value_for_descriptor ret)
    ])
unfolding stub_return_value after_close stub_value default_value_for_descriptor
stub_return_value-method_descriptor args [] h p =
    rw (stub_return_value, after_close-encode_all args [] h p)
stub_return_value-method_descriptor args (b ∷ ret) h p =
    rw (stub_return_value, after_close-encode_all args (b ∷ ret) h p)

after_close_first :
    (before mid xs tail : List ℕ)
    → lacks b')' before ≡ true
    → after_close (((before ++ b')' ∷ mid) ++ xs) ++ tail) ≡ some ((mid ++ xs) ++ tail)
unfolding after_close
after_close_first [] mid xs tail h = refl
after_close_first (x ∷ before) mid xs tail h =
    let (hx, hxs) = and-true (not (x == b')')) (lacks b')' before) h in
    ground (arith, hx, after_close_first before mid xs tail hxs)

-- A class name may hold a `)`. For a method that takes one object of such a class, a stub takes the
-- byte after the first `)` in the name for the return type, where `parse_return_type` takes the one
-- after the arguments.
pub stub_return_value-paren :
    (before after ret : List ℕ) (b : ℕ)
    → lacks b')' before ≡ true
    → lacks b';' (before ++ b')' ∷ b ∷ after) ≡ true
    → let d = method_descriptor (class (before ++ b')' ∷ b ∷ after) ∷ []) ret in
      (parse_return_type d ≡ ok (first ret))
      × (stub_return_value d
          ≡ (if b == b'V' then none else some (default_value_for_descriptor (b ∷ []))))
unfolding stub_return_value stub_value default_value_for_descriptor after_close
stub_return_value-paren before after ret b h p = (
  (parse-method_descriptor (class (before ++ b')' ∷ b ∷ after) ∷ []) ret (rw (p) refl)).1,
  rw (stub_return_value, after_close_first before (b ∷ after) (b';' ∷ []) (b')' ∷ ret) h),
)
