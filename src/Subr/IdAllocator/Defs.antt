-- ===== src/Subr/IdAllocator/Defs.antt =====
-- `IdAllocator` of lib/subr.js. The callback `isAllocated` is an argument of `alloc`: its answers
-- change with the caller's tables.
use node_fast.Base.{
  ℕ, zero, suc, ◌+◌, ◌-◌, ◌^◌, ◌≤◌, ◌<◌, Bool, ◌==◌, ltb, leb, if◌then◌else◌, Outcome, ok, throw,
  assert, ◌>>=◌, ◌>>◌, ids_exhausted, out_of_fuel,
}

pub record IdAllocator : Type 0 where
  pub min : ℕ
  pub max : ℕ
  pub next_id : ℕ

-- `new IdAllocator(args)`.
unfoldable pub create : ℕ → ℕ → Outcome IdAllocator
create min max = do
  assert (ltb min max)
  assert (leb max (2 ^ 31))
  ok (record { min = min; max = max; next_id = min })

-- `next++; if (next > max) next = min;`
abbrev pub advance : IdAllocator → ℕ → ℕ
advance a next = if ltb a.max (next + 1) then a.min else next + 1

-- The `while` loop; the fuel counts the rounds that are left.
unfoldable pub alloc_loop : IdAllocator → (ℕ → Bool) → ℕ → ℕ → Outcome ℕ
alloc_loop a is_alloc zero next = throw out_of_fuel
alloc_loop a is_alloc (suc fuel) next =
    let again = alloc_loop a is_alloc fuel (advance a next) in
    if is_alloc next
    then (if advance a next == a.next_id then throw ids_exhausted else again)
    else ok next

-- The number of identifiers, which is the most rounds that the loop can take.
abbrev pub count : IdAllocator → ℕ
count a = suc (a.max - a.min)

unfoldable pub alloc : IdAllocator → (ℕ → Bool) → Outcome (ℕ × IdAllocator)
alloc a is_alloc = do
  next ← alloc_loop a is_alloc (count a) a.next_id
  ok (next, record a { next_id = advance a next })

-- The allocator's own state is in order.
pub record IsValid (a : IdAllocator) : Type 0 where
  pub ordered : a.min < a.max
  pub from_min : a.min ≤ a.next_id
  pub to_max : a.next_id ≤ a.max
