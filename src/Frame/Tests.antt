-- ===== src/Frame/Tests.antt =====
-- The theorems on the frame of src/vm/frame.rs at a small frame, and runs of its operations.
use jvm_rs.Prelude.{
  ℕ, zero, suc, ◌≤◌, ◌<◌, ◌≡◌, refl, ◌⊎◌, ◌↔◌, true, none, some, [], ◌∷◌, length, get_elem?, arith,
}
use jvm_rs.Prelude.Int.{pos, negsuc, ◌+ℤ◌, to_u32}
use jvm_rs.Types.Value.{ok, int, long, invalid_local_index}
use jvm_rs.Types.Method.{Method}
use jvm_rs.Frame.Defs.{Frame, new, seed_locals}
use jvm_rs.Frame.Ops.{
  store_local, stored, is_wide, is_wide_slot, clear_wide_below, clear_wide_above, read_u16,
  read_i16, read_i32, branch,
}
use jvm_rs.Frame.Locals.{
  Slots, written, IsPaired, store_local-written, store_local-IsPaired, store_local_error,
}
use jvm_rs.Frame.Fetch.{Fetches, read_i32-u32_to_be, reads-Fetches, branch_iff}

-- The code starts with the bytes of -2 as an `i32`.
abbrev method : Method
method = record {
  class_name = "Main";
  name = "run";
  descriptor = "()V";
  access_flags = 0;
  code = 0xff ∷ 0xff ∷ 0xff ∷ 0xfe ∷ 0xb1 ∷ [];
  max_locals = 3;
  max_stack = 2;
  constants = [];
  reference_classes = [];
  field_refs = [];
  method_refs = none ∷ [];
  exception_handlers = [];
  line_numbers = [];
  stack_map_frames = [];
  invoke_dynamic_sites = [];
  condy_sites = [];
  initial_locals = some (int (pos 5)) ∷ [];
  code_parsed = true;
}

abbrev frame : Frame
frame = new method

-- A `long` stored at 1 and then one at 0: the second clears the first.
wide_stores :
    let f = (store_local 1 (long (pos 8)) frame).1 in
    (store_local 0 (long (pos 9)) f).1.locals ≡ some (long (pos 9)) ∷ none ∷ none ∷ []
unfolding new seed_locals store_local stored clear_wide_below clear_wide_above is_wide is_wide_slot
wide_stores = refl

abbrev after_store : Frame
after_store = (store_local 1 (long (pos 8)) frame).1

store_local-written_example :
    (after_store ≡ record frame { locals = after_store.locals })
    × (length after_store.locals ≡ length frame.locals)
    × ((j : ℕ)
        → j < length frame.locals
        → get_elem? after_store.locals j ≡ written 1 (long (pos 8)) frame.locals j)
unfolding new seed_locals store_local stored clear_wide_below clear_wide_above is_wide is_wide_slot
store_local-written_example = store_local-written 1 (long (pos 8)) frame refl

narrow : (l : Slots) → l ≡ some (int (pos 5)) ∷ none ∷ none ∷ [] → IsPaired l
unfolding is_wide_slot is_wide
narrow l e i = rw e (go i)
  where
    go : IsPaired (some (int (pos 5)) ∷ none ∷ none ∷ [])
    go zero h = cc
    go (suc zero) h = cc
    go (suc (suc zero)) h = cc
    go (suc (suc (suc j))) h = cc

store_local-IsPaired_example : IsPaired after_store.locals
unfolding new seed_locals store_local stored clear_wide_below clear_wide_above is_wide is_wide_slot
store_local-IsPaired_example =
    store_local-IsPaired 1 (long (pos 8)) frame refl (narrow frame.locals refl)

abbrev failed : Frame
failed = (store_local 2 (long (pos 8)) frame).1

-- A `long` that does not fit in the last slot.
store_local_error_example :
    ((length frame.locals ≤ 2)
      × (invalid_local_index 3 3 ≡ invalid_local_index 2 (length frame.locals))
      × (failed ≡ frame))
    ⊎ ((3 ≡ length frame.locals)
        × (is_wide (long (pos 8)) ≡ true)
        × (invalid_local_index 3 3 ≡ invalid_local_index 3 (length frame.locals))
        × (get_elem? failed.locals 2 ≡ some (some (long (pos 8)))))
unfolding new seed_locals store_local stored clear_wide_below clear_wide_above is_wide is_wide_slot
store_local_error_example = store_local_error 2 (long (pos 8)) frame refl

read_i32-u32_to_be_example : read_i32 frame ≡ (ok (negsuc 1), record frame { pc = 4 })
unfolding new to_u32
read_i32-u32_to_be_example =
    read_i32-u32_to_be frame (negsuc 1) (omega arith) (refl, (refl, (refl, (refl, tt))))

reads-Fetches_example :
    Fetches 2 frame (read_u16 frame)
    × Fetches 2 frame (read_i16 frame)
    × Fetches 4 frame (read_i32 frame)
reads-Fetches_example = reads-Fetches frame

branch_iff_example : (branch 4 (negsuc 2) frame ≡ (ok tt, record frame { pc = 1 })) ↔ (
    (t : ℕ) × (pos 4 +ℤ negsuc 2 ≡ pos t)
    × (t ≤ length frame.code)
    × (record frame { pc = 1 } ≡ record frame { pc = t }))
branch_iff_example = branch_iff 4 (negsuc 2) frame (record frame { pc = 1 })
