-- ===== src/Frame/Locals.antt =====
-- src/vm/frame.rs: what `store_local` does to the local variables, and the pairing of wide values.
use jvm_rs.Prelude.{
  ℕ, zero, suc, ◌+◌, ◌≤◌, ◌<◌, ◌≡◌, ◌∙◌, refl, ◌⊎◌, true, false, ◌&&◌, ◌||◌, Option, none, some,
  List, ◌==◌, if◌then◌else◌, length, get_elem?, set, arith, get_elem?-set, length-set, lt-get_elem?,
  get_elem?-ge,
}
use jvm_rs.Types.Value.{Value, ok, err, VmError, invalid_local_index}
use jvm_rs.Frame.Defs.{Frame}
use jvm_rs.Frame.Ops.{
  store_local, load_local, is_wide, is_wide_slot, clear_wide_below, clear_wide_above, stored,
}

abbrev pub Slots : Type 0
Slots = List (Option Value)

-- The write of `store_local` when it is in bounds, slot by slot.
abbrev pub written : ℕ → Value → Slots → ℕ → Option (Option Value)
written index value locals j =
    if j == index
    then some (some value)
    else if j == index + 1 && (is_wide value || is_wide_slot (get_elem? locals index))
    then some none
    else if j + 1 == index && is_wide_slot (get_elem? locals j)
    then some none
    else get_elem? locals j

length-clear_wide_below : (i : ℕ) (l : Slots) → length (clear_wide_below i l) ≡ length l
unfolding clear_wide_below
length-clear_wide_below zero l = refl
length-clear_wide_below (suc i) l = ground (arith, length-set l i none)

length-clear_wide_above : (i : ℕ) (l : Slots) → length (clear_wide_above i l) ≡ length l
unfolding clear_wide_above
length-clear_wide_above i l = ground (arith, length-set l (i + 1) none)

get_elem?-clear_wide_below :
    (i j : ℕ) (l : Slots)
    → get_elem? (clear_wide_below i l) j
      ≡ (if j + 1 == i && is_wide_slot (get_elem? l j) then some none else get_elem? l j)
unfolding clear_wide_below is_wide_slot
get_elem?-clear_wide_below zero j l = ground arith
get_elem?-clear_wide_below (suc i) j l = ground (arith, get_elem?-set l i j none, get_elem?-ge l i)

get_elem?-clear_wide_above :
    (i j : ℕ) (l : Slots)
    → j < length l
    → get_elem? (clear_wide_above i l) j
      ≡ (if j == i + 1 && is_wide_slot (get_elem? l i) then some none else get_elem? l j)
unfolding clear_wide_above
get_elem?-clear_wide_above i j l h = ground (arith, get_elem?-set l (i + 1) j none)

pub length-stored : (i : ℕ) (v : Value) (l : Slots) → length (stored i v l) ≡ length l
unfolding stored
length-stored i v l = ground (
  arith,
  length-clear_wide_below i l,
  length-clear_wide_above i (clear_wide_below i l),
  length-set (clear_wide_above i (clear_wide_below i l)) i (some v),
)

get_elem?-stored :
    (i j : ℕ) (v : Value) (l : Slots)
    → i < length l
    → j < length l
    → get_elem? (stored i v l) j ≡ (
        if j == i
        then some (some v)
        else if j == i + 1 && is_wide_slot (get_elem? l i)
        then some none
        else if j + 1 == i && is_wide_slot (get_elem? l j)
        then some none
        else get_elem? l j)
unfolding stored
get_elem?-stored i j v l hi hj = ground (
  arith,
  get_elem?-set (clear_wide_above i (clear_wide_below i l)) i j (some v),
  get_elem?-clear_wide_above i j (clear_wide_below i l),
  get_elem?-clear_wide_below i j l,
  get_elem?-clear_wide_below i i l,
  length-clear_wide_below i l,
  length-clear_wide_above i (clear_wide_below i l),
)

-- The slots that a store leaves are written in one of two ways, by the width of the value.
stored-written :
    (i j : ℕ) (v : Value) (l : Slots)
    → i < length l
    → j < length l
    → (is_wide v ≡ false → get_elem? (stored i v l) j ≡ written i v l j)
      × (is_wide v ≡ true → get_elem? (set (stored i v l) (i + 1) none) j ≡ written i v l j)
stored-written i j v l hi hj = ground (
  arith,
  get_elem?-stored i j v l,
  get_elem?-set (stored i v l) (i + 1) j none,
  length-stored i v l,
)

module _ (index : ℕ) (value : Value) (f : Frame) where
  -- A store that succeeds changes the locals alone, keeps their number, and leaves every slot as
  -- follows: the slot at the index holds the value; the one above is cleared if the new or the old
  -- value is wide; the one below is cleared if it held a wide value; the others are as before.
  pub store_local-written :
      {f' : Frame}
      → store_local index value f ≡ (ok tt, f')
      → (f' ≡ record f { locals = f'.locals })
        × (length f'.locals ≡ length f.locals)
        × ((j : ℕ) → j < length f.locals → get_elem? f'.locals j ≡ written index value f.locals j)
  unfolding store_local
  store_local-written h = (
    ground arith,
    ground (
      arith,
      length-stored index value f.locals,
      length-set (stored index value f.locals) (index + 1) none,
    ),
    λ j hj. ground (arith, stored-written index j value f.locals),
  )

  -- A store fails in two cases only: its index is past the locals, and then the frame is left as it
  -- was; or a wide value is stored in the last slot, and then the slot is written all the same.
  pub store_local_error :
      {e : VmError} {f' : Frame}
      → store_local index value f ≡ (err e, f')
      → ((length f.locals ≤ index) × (e ≡ invalid_local_index index (length f.locals)) × (f' ≡ f))
        ⊎ ((index + 1 ≡ length f.locals)
            × (is_wide value ≡ true)
            × (e ≡ invalid_local_index (index + 1) (length f.locals))
            × (get_elem? f'.locals index ≡ some (some value)))
  unfolding store_local
  store_local_error h = ground (arith, get_elem?-stored index index value f.locals)

  -- A successful store is read back at its index.
  pub load_local-store_local :
      {f' : Frame} → store_local index value f ≡ (ok tt, f') → load_local index f' ≡ ok value
  unfolding store_local load_local
  load_local-store_local h = ground (arith, stored-written index index value f.locals)

-- A wide value owns the slot above it, which is there and holds nothing.
abbrev pub IsPaired : Slots → Type 0
IsPaired l = (i : ℕ) → is_wide_slot (get_elem? l i) ≡ true → get_elem? l (i + 1) ≡ some none

written-paired :
    (index i : ℕ) (value : Value) (l : Slots)
    → IsPaired l
    → is_wide_slot (written index value l i) ≡ true
    → written index value l (i + 1) ≡ some none
unfolding is_wide_slot
written-paired index i value l paired wide = ground (arith, paired i, paired index)

written_room :
    (index i : ℕ) (value : Value) (f : Frame) {f' : Frame}
    → store_local index value f ≡ (ok tt, f')
    → IsPaired f.locals
    → i < length f.locals
    → is_wide_slot (written index value f.locals i) ≡ true
    → i + 1 < length f.locals
unfolding store_local is_wide_slot
written_room index i value f h paired hi wide =
    ground (arith, paired i, lt-get_elem? f.locals (i + 1) {a = none})

wide-lt : (l : Slots) (i : ℕ) → is_wide_slot (get_elem? l i) ≡ true → i < length l
unfolding is_wide_slot
wide-lt l i h = ground (arith, get_elem?-ge l i)

-- A store that succeeds keeps every wide value paired with its empty upper slot.
pub store_local-IsPaired :
    (index : ℕ) (value : Value) (f : Frame) {f' : Frame}
    → store_local index value f ≡ (ok tt, f')
    → IsPaired f.locals
    → IsPaired f'.locals
store_local-IsPaired index value f {f'} h paired i wide =
    let (_, len, slots) = store_local-written index value f h in
    let hi : i < length f.locals = omega (arith, wide-lt f'.locals i wide) in
    let wide' = rw (slots i hi) at wide in
    slots (i + 1) (written_room index i value f h paired hi wide')
    ∙ written-paired index i value f.locals paired wide'
