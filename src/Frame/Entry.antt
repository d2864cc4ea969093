-- ===== src/Frame/Entry.antt =====
-- src/vm/frame.rs: the frame that a method starts with, its counters and its inline cache.

use text.Mathlib.Text.{◌==◌ as str_eq}
use jvm_rs.Prelude.{
  ℕ, zero, suc, ◌+◌, ◌-◌, ◌%◌, ◌<◌, ◌≡◌, ◌∙◌, refl, ap, ◌&&◌, Option, none, some, List, [], ◌∷◌,
  String, ltb, leb, ◌==◌, if◌then◌else◌, length, get_elem?, set, replicate, arith, get_elem?-set,
  length-set, get_some-set, length-replicate,
}
use jvm_rs.Types.Value.{Value}
use jvm_rs.Types.Method.{Method, ClassMethod}
use jvm_rs.Frame.Defs.{Frame, Counts, new, seed_locals, count_of, increment_entry}
use jvm_rs.Frame.Pool.{cache_invoke, get_cached_invoke}

length-seed_locals :
    (values : List (Option Value)) (index : ℕ) (locals : List (Option Value))
    → length (seed_locals values index locals) ≡ length locals
unfolding seed_locals
length-seed_locals [] index locals = refl
length-seed_locals (v ∷ values) index locals =
    ground
      (arith, length-seed_locals values (index + 1) (set locals index v), length-set locals index v)

get_elem?-cons :
    (v : Option Value) (values : List (Option Value)) (i : ℕ)
    → get_elem? (v ∷ values) i ≡ (if i == 0 then some v else get_elem? values (i - 1))
get_elem?-cons v values zero = refl
get_elem?-cons v values (suc i) = ground arith

-- Slot `j` is seeded from the value `j - index` places on, if there is one.
get_elem?-seed_locals :
    (values : List (Option Value)) (index : ℕ) (locals : List (Option Value)) (j : ℕ)
    → j < length locals
    → get_elem? (seed_locals values index locals) j ≡ (
        if leb index j && ltb (j - index) (length values)
        then get_elem? values (j - index)
        else get_elem? locals j)
unfolding seed_locals
get_elem?-seed_locals [] index locals j h = ground arith
get_elem?-seed_locals (v ∷ values) index locals j h =
    let e : j - (index + 1) ≡ j - index - 1 = omega arith in
    ground (
      arith,
      get_elem?-seed_locals values (index + 1) (set locals index v) j,
      get_elem?-set locals index j v,
      length-set locals index v,
      get_elem?-cons v values (j - index),
      ap (get_elem? values) e,
    )

get_elem?-replicate : (n j : ℕ) (a : Option Value) → j < n → get_elem? (replicate n a) j ≡ some a
get_elem?-replicate zero j a h = elim h [ ]
get_elem?-replicate (suc n) zero a h = refl
get_elem?-replicate (suc n) (suc j) a h = get_elem?-replicate n j a (omega arith)

-- A new frame has as many locals as the method declares, starts at the first byte with an empty
-- stack, and each local holds the initial value of its index, or nothing if there is none.
pub new-locals :
    (m : Method)
    → (length (new m).locals ≡ m.max_locals)
      × ((new m).pc ≡ 0)
      × ((new m).stack ≡ [])
      × ((j : ℕ)
          → j < m.max_locals
          → get_elem? (new m).locals j
            ≡ (if ltb j (length m.initial_locals) then get_elem? m.initial_locals j else some none))
unfolding new
new-locals m = (
  length-seed_locals m.initial_locals 0 _ ∙ length-replicate m.max_locals none,
  refl,
  refl,
  λ j h. ground (
    arith,
    get_elem?-seed_locals m.initial_locals 0 (replicate m.max_locals none) j,
    get_elem?-replicate m.max_locals j none,
    length-replicate {A = Option Value} m.max_locals none,
  ),
)

-- Counting an event at a key adds one to that key's `u32` count, with wrap-around, and leaves the
-- counts of the other keys as they were.
pub count_of-increment_entry :
    (k j : ℕ) (counts : Counts)
    → count_of j (increment_entry k counts)
      ≡ (if j == k then (count_of k counts + 1) % 0x1_0000_0000 else count_of j counts)
unfolding count_of increment_entry
count_of-increment_entry k j [] = ground arith
count_of-increment_entry k j ((i, n) ∷ counts) = ground (arith, count_of-increment_entry k j counts)

-- A resolved method that is cached at an index within the cache is found there again for the class
-- that it was resolved for, and for no other class.
pub get_cached_invoke-cache_invoke :
    (index : ℕ) (resolved receiver : String) (method : ClassMethod) (f : Frame)
    → index < length f.invoke_cache
    → get_cached_invoke index receiver (cache_invoke index resolved method f)
      ≡ (if str_eq resolved receiver then some method else none)
unfolding get_cached_invoke cache_invoke
get_cached_invoke-cache_invoke index resolved receiver method f h = ground (
  arith,
  get_some-set f.invoke_cache index index
      (some (record { resolved_class = resolved; class_method = method })),
)
