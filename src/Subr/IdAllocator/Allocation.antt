-- ===== src/Subr/IdAllocator/Allocation.antt =====
-- What `alloc` of lib/subr.js returns, and when it throws.
use node_fast.Base.{
  ℕ, zero, suc, ◌+◌, ◌-◌, ◌≤◌, ◌<◌, ◌≡◌, sym, ap, ◌∙◌, inl, inr, Bool, true, false, arith, Outcome,
  ok, throw, ids_exhausted, Returns, ok_injective, refl, subst,
}
use node_fast.Subr.IdAllocator.Defs.{IdAllocator, IsValid, alloc_loop, count, alloc}
use node_fast.Subr.IdAllocator.Cycle.{
  nth, advance-nth, nth_start, nth_wrap, nth_range, nth_onto, first_false,
}

module _ (a : IdAllocator) (is_alloc : ℕ → Bool) (v : IsValid a) where
  stops :
      (fuel k : ℕ)
      → is_alloc (nth a k) ≡ false
      → alloc_loop a is_alloc (suc fuel) (nth a k) ≡ ok (nth a k)
  unfolding alloc_loop
  stops fuel k free = rw free

  goes_on :
      (fuel k : ℕ)
      → k < a.max - a.min
      → is_alloc (nth a k) ≡ true
      → alloc_loop a is_alloc (suc fuel) (nth a k) ≡ alloc_loop a is_alloc fuel (nth a (suc k))
  unfolding alloc_loop
  goes_on fuel k h taken =
      ground (arith, advance-nth a k v (omega arith), nth_start a (suc k) v (omega arith))

  gives_up :
      (fuel k : ℕ)
      → k ≡ a.max - a.min
      → is_alloc (nth a k) ≡ true
      → alloc_loop a is_alloc (suc fuel) (nth a k) ≡ throw ids_exhausted
  unfolding alloc_loop
  gives_up fuel k e taken =
      ground (arith, advance-nth a k v (omega arith), nth_wrap a v, ap (nth a) (ap suc e))

  -- The loop stops at the first identifier that is free.
  loop_finds :
      (d fuel k t : ℕ)
      → k + d ≡ t
      → t < count a
      → d < fuel
      → is_alloc (nth a t) ≡ false
      → ((j : ℕ) → j < t → is_alloc (nth a j) ≡ true)
      → alloc_loop a is_alloc fuel (nth a k) ≡ ok (nth a t)
  loop_finds d zero k t e lt le free before = elim le [ ]
  loop_finds zero (suc fuel) k t e lt le free before =
      let same : k ≡ t = omega arith in rw same (stops fuel t free)
  loop_finds (suc d) (suc fuel) k t e lt le free before =
      goes_on fuel k (omega arith) (before k (omega arith))
      ∙ loop_finds d fuel (suc k) t (omega arith) lt (omega arith) free before

  loop_exhausts :
      (d fuel k : ℕ)
      → k + d ≡ a.max - a.min
      → d < fuel
      → ((j : ℕ) → j < count a → is_alloc (nth a j) ≡ true)
      → alloc_loop a is_alloc fuel (nth a k) ≡ throw ids_exhausted
  loop_exhausts d zero k e le all = elim le [ ]
  loop_exhausts zero (suc fuel) k e le all = gives_up fuel k (omega arith) (all k (omega arith))
  loop_exhausts (suc d) (suc fuel) k e le all =
      goes_on fuel k (omega arith) (all k (omega arith))
      ∙ loop_exhausts d fuel (suc k) (omega arith) (omega arith) all

  nth_zero : nth a 0 ≡ a.next_id
  nth_zero = ground (arith, v)

  first_round :
      (r : Outcome ℕ)
      → alloc_loop a is_alloc (count a) (nth a 0) ≡ r
      → alloc_loop a is_alloc (count a) a.next_id ≡ r
  first_round r e = subst (λ s. alloc_loop a is_alloc (count a) s ≡ r) nth_zero e

  -- An allocator in order takes the first identifier that is free, in the circular order that
  -- begins at `next_id`, and the next call will begin behind it.
  pub alloc-first :
      (k : ℕ)
      → k < count a
      → is_alloc (nth a k) ≡ false
      → ((j : ℕ) → j < k → is_alloc (nth a j) ≡ true)
      → alloc a is_alloc ≡ ok (nth a k, record a { next_id = nth a (suc k) })
  unfolding alloc
  alloc-first k lt free before =
      rw (first_round (ok (nth a k)) (loop_finds k (count a) 0 k (omega arith) lt lt free before))
        (ap (λ n. ok (nth a k, record a { next_id = n })) (advance-nth a k v lt))

  -- With every identifier of its range taken, a call of an allocator in order throws.
  pub alloc-exhausted :
      ((id : ℕ) → a.min ≤ id → id ≤ a.max → is_alloc id ≡ true)
      → alloc a is_alloc ≡ throw ids_exhausted
  unfolding alloc
  alloc-exhausted all = rw (
      first_round (throw ids_exhausted) (
        loop_exhausts (a.max - a.min) (count a) 0 (omega arith) (omega arith)
          (λ j h. let r = nth_range a j v (omega arith) in all (nth a j) r.0 r.1)))

  -- What a call that returns promises: a free identifier of the range, and an allocator in order
  -- over the same range.
  abbrev pub Fresh : ℕ × IdAllocator → Type 0
  Fresh (id, b) =
      (is_alloc id ≡ false)
      × (a.min ≤ id)
      × (id ≤ a.max)
      × IsValid b
      × (b.min ≡ a.min)
      × (b.max ≡ a.max)

  first-Fresh :
      (k : ℕ)
      → k < count a
      → is_alloc (nth a k) ≡ false
      → Fresh (nth a k, record a { next_id = nth a (suc k) })
  first-Fresh k lt free =
      let here = nth_range a k v (omega arith) in
      let next = nth_range a (suc k) v lt in
      (
        free,
        here.0,
        here.1,
        record { ordered = v.ordered; from_min = next.0; to_max = next.1 },
        refl,
        refl,
      )

  -- While one identifier of the range is free, a call of an allocator in order returns one that is
  -- free and in the range, and leaves the allocator in order: the loop ends, and throws nothing.
  pub alloc-Fresh :
      (id : ℕ) → a.min ≤ id → id ≤ a.max → is_alloc id ≡ false → Returns Fresh (alloc a is_alloc)
  alloc-Fresh id lo hi free = elim (first_false (λ k. is_alloc (nth a k)) (count a)) [
    | inl all ↦ let (k, lt, e) = nth_onto a id v lo hi in cc (all k lt, ap is_alloc e, free)
    | inr (k, lt, f, before) ↦ (_, alloc-first k lt f before, first-Fresh k lt f)
  ]

  -- A call that returns at all has returned such an identifier.
  pub alloc-ok-Fresh : (r : ℕ × IdAllocator) → alloc a is_alloc ≡ ok r → Fresh r
  alloc-ok-Fresh r e = elim (first_false (λ k. is_alloc (nth a k)) (count a)) [
    | inl all ↦ cc (
      e,
      alloc-exhausted (λ id lo hi.
          let (k, lt, e') = nth_onto a id v lo hi in subst (λ j. is_alloc j ≡ true) e' (all k lt)),
    )
    | inr (k, lt, f, before) ↦
        subst Fresh (ok_injective (sym (alloc-first k lt f before) ∙ e)) (first-Fresh k lt f)
  ]
