-- ===== src/Subr/IdAllocator/Cycle.antt =====
-- The order in which `alloc` of lib/subr.js tries the identifiers: from `next_id` up, round the
-- end, and back.
use node_fast.Base.{
  ℕ, zero, suc, ◌+◌, ◌-◌, ◌≤◌, ◌<◌, ◌≡◌, ◌⊎◌, inl, inr, Bool, true, false, Bool-cases, arith, leb,
  if◌then◌else◌,
}
use node_fast.Subr.IdAllocator.Defs.{IdAllocator, IsValid, advance, count}

-- The identifier that is tried after `k` others.
abbrev pub nth : IdAllocator → ℕ → ℕ
nth a k = if leb (a.next_id + k) a.max then a.next_id + k else a.next_id + k - count a

pub advance-nth :
    (a : IdAllocator) (k : ℕ) → IsValid a → k < count a → advance a (nth a k) ≡ nth a (suc k)
advance-nth a k v h = ground arith

-- Only the last round comes back to the start.
pub nth_start :
    (a : IdAllocator) (k : ℕ) → IsValid a → k ≤ a.max - a.min → nth a k ≡ a.next_id → k ≡ 0
nth_start a k v h e = ground arith

pub nth_wrap : (a : IdAllocator) → IsValid a → nth a (count a) ≡ a.next_id
nth_wrap a v = ground arith

pub nth_range :
    (a : IdAllocator) (k : ℕ) → IsValid a → k ≤ count a → (a.min ≤ nth a k) × (nth a k ≤ a.max)
nth_range a k v h = ground arith

-- Every identifier of the range is tried.
pub nth_onto :
    (a : IdAllocator) (id : ℕ)
    → IsValid a
    → a.min ≤ id
    → id ≤ a.max
    → (k : ℕ) × (k < count a) × (nth a k ≡ id)
nth_onto a id v lo hi = elim (Bool-cases (leb a.next_id id)) [
  | inl up ↦ (id - a.next_id, ground arith, ground arith)
  | inr round ↦ (id + count a - a.next_id, ground arith, ground arith)
]

extend :
    (p : ℕ → Bool) (n k : ℕ) → k < suc n → p n ≡ true → ((j : ℕ) → j < n → p j ≡ true) → p k ≡ true
extend p n k h t all = elim (Bool-cases (leb n k)) [
  | inl e ↦ let same : k ≡ n = ground arith in ground arith
  | inr e ↦ all k (ground arith)
]

-- Of the first `n` values of a test, all are true or one is the first that is false.
pub first_false :
    (p : ℕ → Bool) (n : ℕ)
    → ((k : ℕ) → k < n → p k ≡ true)
      ⊎ ((k : ℕ) × (k < n) × (p k ≡ false) × ((j : ℕ) → j < k → p j ≡ true))
first_false p zero = inl (λ k h. elim h [ ])
first_false p (suc n) = elim (first_false p n) [
  | inr (k, lt, e, before) ↦ inr (k, omega arith, e, before)
  | inl all ↦ elim (Bool-cases (p n)) [
    | inl t ↦ inl (λ k h. extend p n k h t all)
    | inr f ↦ inr (n, omega arith, f, all)
  ]
]
