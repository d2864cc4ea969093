-- ===== src/Types/Action.antt =====
-- A method over `&mut self` that returns `Result`: a state in, a result and the state out. The state
-- comes back after an error too, since what was written stays written.
use jvm_rs.Prelude.{Option, none, some}
use jvm_rs.Types.Value.{Result, ok, err, panic, VmError}

abbrev pub Action : Type 0 → Type 0 → Type 0
Action S A = S → Result A × S

module _ {S : Type 0} {A : Type 0} where
  abbrev pub pure : A → Action S A
  pure a s = (ok a, s)

  abbrev pub fail : VmError → Action S A
  fail e s = (err e, s)

  -- A call that reads the state only.
  abbrev pub gets : (S → Result A) → Action S A
  gets f s = (f s, s)

  -- A result of the value alone, under `?`.
  abbrev pub lift : Result A → Action S A
  lift r s = (r, s)

-- `o.ok_or(e)`
abbrev pub ok_or {ℓ} : {A : Type ℓ} → Option A → VmError → Result A
ok_or none e = err e
ok_or (some a) e = ok a

-- What follows a call under `?`, by how the call ended.
abbrev pub and_then : {S A B : Type 0} → Result A → (A → Action S B) → Action S B
and_then (ok a) f s = f a s
and_then (err e) f s = (err e, s)
and_then panic f s = (panic, s)

infixl 5 ◌>>=◌ ◌>>◌
abbrev pub ◌>>=◌ : {S A B : Type 0} → Action S A → (A → Action S B) → Action S B
◌>>=◌ m f s = let (r, s') = m s in and_then r f s'

abbrev pub ◌>>◌ : {S B : Type 0} → Action S (Unit {0}) → Action S B → Action S B
m >> k = m >>= λ _. k

abbrev pub modify : {S : Type 0} → (S → S) → Action S (Unit {0})
modify f s = (ok tt, f s)
