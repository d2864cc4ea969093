-- ===== src/Verify/Ensures.antt =====
-- What a chain of calls of src/vm/verify.rs ensures of its result, if it returns one.
use jvm_rs.Prelude.{◌≡◌, refl, Bool, true, false, if◌then◌else◌}
use jvm_rs.Types.Value.{Result, ok, err, panic, VmError}
use jvm_rs.Types.Fallible.{◌>>=◌}

pub data Ensures {A : Type 0} (P : A → Type 0) : Result A → Type 0 where
  returns : (a : A) → P a → Ensures P (ok a)
  fails : (e : VmError) → Ensures P (err e)
  panics : Ensures P panic

pub ensured : {A : Type 0} (P : A → Type 0) (r : Result A) (a : A) → Ensures P r → r ≡ ok a → P a
ensured P (ok b) a (returns _ h) e = let e' : b ≡ a = cc in rw⁻¹ e' h
ensured P (err x) a (fails _) e = absurd (cc)
ensured P panic a panics e = absurd (cc)

pub bind-Ensures :
    {A B : Type 0} (P : A → Type 0) (Q : B → Type 0) (m : Result A) (k : A → Result B)
    → Ensures P m
    → ((a : A) → P a → Ensures Q (k a))
    → Ensures Q (m >>= k)
bind-Ensures P Q (ok a) k (returns _ h) f = f a h
bind-Ensures P Q (err e) k (fails _) f = fails e
bind-Ensures P Q panic k panics f = panics

-- Nothing is known of the first result.
pub then-Ensures :
    {A B : Type 0} (Q : B → Type 0) (m : Result A) (k : A → Result B)
    → ((a : A) → Ensures Q (k a))
    → Ensures Q (m >>= k)
then-Ensures Q (ok a) k f = f a
then-Ensures Q (err e) k f = fails e
then-Ensures Q panic k f = panics

pub if-Ensures :
    {A : Type 0} (P : A → Type 0) (b : Bool) (r q : Result A)
    → (b ≡ true → Ensures P r)
    → (b ≡ false → Ensures P q)
    → Ensures P (if b then r else q)
if-Ensures P true r q f g = f refl
if-Ensures P false r q f g = g refl

pub both-Ensures :
    {A : Type 0} (P Q : A → Type 0) (r : Result A)
    → Ensures P r
    → Ensures Q r
    → Ensures (λ a. P a × Q a) r
both-Ensures P Q (ok a) (returns _ h) (returns _ k) = returns a (h, k)
both-Ensures P Q (err e) h k = fails e
both-Ensures P Q panic h k = panics

-- With the equation of the first result.
pub known-Ensures :
    {A B : Type 0} (Q : B → Type 0) (m : Result A) (k : A → Result B)
    → ((a : A) → m ≡ ok a → Ensures Q (k a))
    → Ensures Q (m >>= k)
known-Ensures Q (ok a) k f = f a refl
known-Ensures Q (err e) k f = fails e
known-Ensures Q panic k f = panics

pub map-Ensures :
    {A : Type 0} (P Q : A → Type 0) (r : Result A)
    → Ensures P r
    → ((a : A) → P a → Q a)
    → Ensures Q r
map-Ensures P Q (ok a) (returns _ h) f = returns a (f a h)
map-Ensures P Q (err e) h f = fails e
map-Ensures P Q panic h f = panics
