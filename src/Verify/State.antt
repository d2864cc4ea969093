-- ===== src/Verify/State.antt =====
-- src/vm/verify.rs: the operations on the frame state of the verifier, and what they require of types.
use Prim.Native.String.{◌++◌ as ◌^^◌}
use jvm_rs.Prelude.{
  ℕ, zero, suc, ◌+◌, Bool, false, ◌&&◌, ◌||◌, Option, none, some, List, [], ◌∷◌, ltb, leb,
  if◌then◌else◌, length, get_elem?, set,
}
use jvm_rs.Types.Value.{verification_error, Result, ok, err}
use jvm_rs.Types.Action.{Action, lift, ◌>>=◌}
use jvm_rs.Types.Fallible.{decimal}
use jvm_rs.Verify.Types.{
  VerifyType, top, int, float, long, double, null, return_address, reference, uninitialized_this,
  uninitialized, FrameState, eq_type, type_name, type_compatible, is_wide_verify_type,
}

unfoldable pub require_assignable : ℕ → VerifyType → VerifyType → Result (Unit {0})
require_assignable pc actual expected =
    if type_compatible actual expected
    then ok tt
    else err (
        verification_error pc
          ("type mismatch: expected " ^^ type_name expected ^^ ", got " ^^ type_name actual))

unfoldable pub require_type : ℕ → VerifyType → VerifyType → Result (Unit {0})
unfolding require_assignable
require_type pc actual expected = require_assignable pc actual expected

-- `expected.iter().any(|candidate| actual == candidate)`
unfoldable pub is_one_of : VerifyType → List VerifyType → Bool
is_one_of actual [] = false
is_one_of actual (candidate ∷ expected) = eq_type actual candidate || is_one_of actual expected

unfoldable pub require_one_of : ℕ → VerifyType → List VerifyType → Result (Unit {0})
unfolding is_one_of
require_one_of pc actual expected =
    if is_one_of actual expected
    then ok tt
    else err (verification_error pc ("unexpected type " ^^ type_name actual))

unfoldable pub require_reference_like : ℕ → VerifyType → Result (Unit {0})
require_reference_like pc null = ok tt
require_reference_like pc (reference _) = ok tt
require_reference_like pc uninitialized_this = ok tt
require_reference_like pc (uninitialized _) = ok tt
require_reference_like pc actual =
    err (verification_error pc ("expected reference, got " ^^ type_name actual))

unfoldable pub require_astore_type : ℕ → VerifyType → Result (Unit {0})
unfolding require_reference_like
require_astore_type pc (return_address _) = ok tt
require_astore_type pc actual = require_reference_like pc actual

unfoldable pub require_constructor_receiver : ℕ → VerifyType → Result (Unit {0})
require_constructor_receiver pc uninitialized_this = ok tt
require_constructor_receiver pc (uninitialized _) = ok tt
require_constructor_receiver pc (reference _) = ok tt
require_constructor_receiver pc ty = err (
    verification_error pc
      ("constructor receiver must be uninitialized or reference, got " ^^ type_name ty))

unfoldable pub require_return_type : ℕ → Option VerifyType → VerifyType → Result (Unit {0})
unfolding require_assignable
require_return_type pc none expected = err (verification_error pc "typed return in void method")
require_return_type pc (some actual) expected = require_assignable pc expected actual

unfoldable pub push : VerifyType → ℕ → ℕ → Action FrameState (Unit {0})
push ty pc max_stack state =
    if leb max_stack (length state.stack)
    then (
      err (verification_error pc ("stack overflow past max_stack " ^^ decimal max_stack)),
      state,
    )
    else (ok tt, record state { stack = ty ∷ state.stack })

unfoldable pub pop : ℕ → Action FrameState VerifyType
pop pc state = elim state.stack [
  | [] ↦ (err (verification_error pc "operand stack underflow"), state)
  | ty ∷ rest ↦ (ok ty, record state { stack = rest })
]

unfoldable pub pop_expect_int : ℕ → Action FrameState (Unit {0})
unfolding pop
pop_expect_int pc = pop pc >>= λ ty. lift (require_type pc ty int)

unfoldable pub pop_expect_long : ℕ → Action FrameState (Unit {0})
unfolding pop
pop_expect_long pc = pop pc >>= λ ty. lift (require_type pc ty long)

unfoldable pub pop_expect_float : ℕ → Action FrameState (Unit {0})
unfolding pop
pop_expect_float pc = pop pc >>= λ ty. lift (require_type pc ty float)

unfoldable pub pop_expect_double : ℕ → Action FrameState (Unit {0})
unfolding pop
pop_expect_double pc = pop pc >>= λ ty. lift (require_type pc ty double)

unfoldable pub pop_expect_reference : ℕ → Action FrameState (Unit {0})
unfolding pop
pop_expect_reference pc = pop pc >>= λ ty. lift (require_reference_like pc ty)

unfoldable pub load_local : ℕ → ℕ → FrameState → Result VerifyType
load_local index pc state = elim (get_elem? state.locals index) [
  | none ↦ err (verification_error pc ("local " ^^ decimal index ^^ " out of bounds"))
  | some ty ↦
      if eq_type ty top
      then err (verification_error pc ("local " ^^ decimal index ^^ " is not initialized"))
      else ok ty
]

unfoldable pub is_wide_local : Option VerifyType → Bool
is_wide_local none = false
is_wide_local (some ty) = is_wide_verify_type ty

-- The wide local whose second half is about to be overwritten.
unfoldable pub clear_below : ℕ → List VerifyType → List VerifyType
clear_below zero locals = locals
clear_below (suc i) locals = if is_wide_local (get_elem? locals i) then set locals i top else locals

-- The second half of the wide local that is about to be overwritten.
unfoldable pub clear_above : ℕ → List VerifyType → List VerifyType
clear_above index locals =
    if is_wide_local (get_elem? locals index) && ltb (index + 1) (length locals)
    then set locals (index + 1) top
    else locals

unfoldable pub store_local : ℕ → VerifyType → ℕ → Action FrameState (Unit {0})
unfolding clear_below clear_above
store_local index ty pc state =
    let len = length state.locals in
    let locals' = set (clear_above index (clear_below index state.locals)) index ty in
    if leb len index
    then (err (verification_error pc ("local " ^^ decimal index ^^ " out of bounds")), state)
    else if is_wide_verify_type ty
    then (if leb len (index + 1)
        then (
          err (verification_error pc ("local " ^^ decimal (index + 1) ^^ " out of bounds")),
          record state { locals = locals' },
        )
        else (ok tt, record state { locals = set locals' (index + 1) top }))
    else (ok tt, record state { locals = locals' })

-- `if value == from { *value = initialized }` for each value
unfoldable pub replace_type : VerifyType → VerifyType → List VerifyType → List VerifyType
replace_type from to [] = []
replace_type from to (ty ∷ tys) = (if eq_type ty from then to else ty) ∷ replace_type from to tys

unfoldable pub initialize_uninitialized : VerifyType → List ℕ → FrameState → FrameState
unfolding replace_type
initialize_uninitialized from class_name state = record {
  locals = replace_type from (reference (some class_name)) state.locals;
  stack = replace_type from (reference (some class_name)) state.stack;
}
