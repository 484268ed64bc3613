-- ===== src/Base/Map.antt =====
-- A JavaScript object whose property names are numeric identifiers: the source's `fc_pending`,
-- `fc_abandoned` and `fs_conns`. A `for ... in` loop visits such keys in increasing order, which
-- is the order of the list.
use Prim.Native.Nat.{ℕ, suc, ◌≤◌, ◌<◌}
use mathlib.Core.Path.{◌≡◌, refl, ap, ◌∙◌}
use mathlib.Core.Bool.{Bool}
use mathlib.Core.Option.{Option, none, some}
use mathlib.Core.List.{List, [], ◌∷◌, map}
use native.Mathlib.Omega.{arith}
use node_fast.Base.Tests.{◌==◌, ltb, if◌then◌else◌, is_some}
use node_fast.Base.Lists.{length}

abbrev pub Map {ℓ} : Type ℓ → Type ℓ
Map V = List (ℕ × V)

module _ {ℓ} {V : Type ℓ} where
  unfoldable pub lookup : ℕ → Map V → Option V
  lookup k [] = none
  lookup k ((j, v) ∷ m) = if k == j then some v else lookup k m

  -- `m.hasOwnProperty(k)`
  abbrev pub has_own_property : ℕ → Map V → Bool
  has_own_property k m = is_some (lookup k m)

  pub lookup-empty : (k : ℕ) → lookup k [] ≡ none
  unfolding lookup
  lookup-empty k = refl

  -- `m[k] = v`
  unfoldable pub insert : ℕ → V → Map V → Map V
  insert k v [] = (k, v) ∷ []
  insert k v (e ∷ m) =
      if k == e.0 then (k, v) ∷ m else if ltb k e.0 then (k, v) ∷ e ∷ m else e ∷ insert k v m

  -- `delete m[k]`
  unfoldable pub erase : ℕ → Map V → Map V
  erase k [] = []
  erase k (e ∷ m) = let rest = erase k m in if k == e.0 then rest else e ∷ rest

  abbrev pub keys : Map V → List ℕ
  keys = map (λ e. e.0)

  -- The keys increase along the list, from above the bound.
  abbrev pub Above : ℕ → Map V → Type 0
  Above b [] = Unit {0}
  Above b ((k, v) ∷ m) = (b < k) × Above k m

  -- The property names increase: none is listed twice.
  abbrev pub Sorted : Map V → Type 0
  Sorted [] = Unit {0}
  Sorted ((k, v) ∷ m) = Above k m

  pub lookup-insert :
      (k j : ℕ) (v : V) (m : Map V)
      → lookup j (insert k v m) ≡ (if j == k then some v else lookup j m)
  unfolding lookup insert
  lookup-insert k j v [] = refl
  lookup-insert k j v (e ∷ m) = ground (arith, lookup-insert k j v m)

  pub lookup-erase :
      (k j : ℕ) (m : Map V) → lookup j (erase k m) ≡ (if j == k then none else lookup j m)
  unfolding lookup erase
  lookup-erase k j [] = ground arith
  lookup-erase k j (e ∷ m) = ground (arith, lookup-erase k j m)

  pub lookup-Above : (k b : ℕ) (m : Map V) → Above b m → k ≤ b → lookup k m ≡ none
  unfolding lookup
  lookup-Above k b [] h le = refl
  lookup-Above k b (e ∷ m) h le = ground (arith, lookup-Above k e.0 m h.1)

  pub Above-Sorted : (b : ℕ) (m : Map V) → Above b m → Sorted m
  Above-Sorted b [] h = tt
  Above-Sorted b (e ∷ m) h = h.1

  insert-Above : (b k : ℕ) (v : V) (m : Map V) → Above b m → b < k → Above b (insert k v m)
  unfolding insert
  insert-Above b k v [] h lt = (lt, tt)
  insert-Above b k v (e ∷ m) h lt = ground (arith, insert-Above e.0 k v m h.1)

  pub insert-Sorted : (k : ℕ) (v : V) (m : Map V) → Sorted m → Sorted (insert k v m)
  unfolding insert
  insert-Sorted k v [] h = tt
  insert-Sorted k v (e ∷ m) h = ground (arith, insert-Above e.0 k v m h)

  Above-mono : (b c : ℕ) (m : Map V) → b ≤ c → Above c m → Above b m
  Above-mono b c [] le h = tt
  Above-mono b c (e ∷ m) le h = (omega arith, h.1)

  erase-Above : (b k : ℕ) (m : Map V) → Above b m → Above b (erase k m)
  unfolding erase
  erase-Above b k [] h = tt
  erase-Above b k (e ∷ m) h = ground (arith, erase-Above e.0 k m h.1, Above-mono b e.0 (erase k m))

  pub erase-Sorted : (k : ℕ) (m : Map V) → Sorted m → Sorted (erase k m)
  unfolding erase
  erase-Sorted k [] h = tt
  erase-Sorted k (e ∷ m) h = ground (arith, erase-Above e.0 k m h, Above-Sorted e.0 (erase k m))

  pub length-insert :
      (k : ℕ) (v : V) (m : Map V) → lookup k m ≡ none → length (insert k v m) ≡ suc (length m)
  unfolding lookup insert
  length-insert k v [] h = omega arith
  length-insert k v (e ∷ m) h = ground (arith, length-insert k v m)

  pub erase_absent : (k : ℕ) (m : Map V) → lookup k m ≡ none → erase k m ≡ m
  unfolding lookup erase
  erase_absent k [] h = refl
  erase_absent k (e ∷ m) h = ground (arith, erase_absent k m)

  pub length-erase :
      (k : ℕ) (v : V) (m : Map V)
      → Sorted m
      → lookup k m ≡ some v
      → suc (length (erase k m)) ≡ length m
  unfolding lookup erase
  length-erase k v [] d h = ground arith
  length-erase k v (e ∷ m) d h =
      ground
        (arith, length-erase k v m (Above-Sorted e.0 m d), erase_absent k m, lookup-Above k e.0 m d)

  -- Several properties are deleted, one after the other.
  unfoldable pub erase_all : List ℕ → Map V → Map V
  erase_all [] m = m
  erase_all (k ∷ ks) m = erase_all ks (erase k m)

  erase_first : (k : ℕ) (v : V) (m : Map V) → Above k m → erase k ((k, v) ∷ m) ≡ m
  unfolding erase
  erase_first k v m h = ground (arith, erase_absent k m (lookup-Above k k m h (omega arith)))

  pub erase_all-keys : (m : Map V) → Sorted m → erase_all (keys m) m ≡ []
  unfolding erase_all
  erase_all-keys [] h = refl
  erase_all-keys ((k, v) ∷ m) h =
      ap (erase_all (keys m)) (erase_first k v m h) ∙ erase_all-keys m (Above-Sorted k m h)
