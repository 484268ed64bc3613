-- ===== src/Tests/Allocator.antt =====
-- `IdAllocator` of lib/subr.js over the identifiers from 1 to 4, as test/tst.allocator.js uses it.
use node_fast.Base.{
  ℕ, ◌<◌, ◌≡◌, refl, Bool, true, ◌||◌, ◌==◌, arith, ok, throw, ids_exhausted, Returns,
}
use node_fast.Subr.IdAllocator.{IdAllocator, IsValid, alloc, alloc_loop}
use node_fast.Subr.IdAllocator.Cycle.{nth}
use node_fast.Subr.IdAllocator.Allocation.{Fresh, alloc-first, alloc-exhausted, alloc-Fresh}

abbrev near_the_end : IdAllocator
near_the_end = record { min = 1; max = 4; next_id = 4 }

-- The identifiers 1 and 4 are taken.
abbrev some_taken : ℕ → Bool
some_taken id = id == 1 || id == 4

abbrev all_taken : ℕ → Bool
all_taken id = true

near_the_end-IsValid : IsValid near_the_end
near_the_end-IsValid = record {
  ordered = omega arith;
  from_min = omega arith;
  to_max = omega arith;
}

taken_before : (j : ℕ) → j < 2 → some_taken (nth near_the_end j) ≡ true
taken_before j h = ground arith

alloc-first_example :
    alloc near_the_end some_taken
    ≡ ok (nth near_the_end 2, record near_the_end { next_id = nth near_the_end 3 })
alloc-first_example =
    alloc-first near_the_end some_taken near_the_end-IsValid 2 (omega arith) refl taken_before

alloc_run : alloc near_the_end some_taken ≡ ok (2, record near_the_end { next_id = 3 })
unfolding alloc alloc_loop
alloc_run = refl

alloc-exhausted_example : alloc near_the_end all_taken ≡ throw ids_exhausted
alloc-exhausted_example =
    alloc-exhausted near_the_end all_taken near_the_end-IsValid (λ id lo hi. refl)

alloc-Fresh_example :
    Returns (Fresh near_the_end some_taken near_the_end-IsValid) (alloc near_the_end some_taken)
alloc-Fresh_example =
    alloc-Fresh near_the_end some_taken near_the_end-IsValid 3 (omega arith) (omega arith) refl
