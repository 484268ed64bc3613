-- ===== src/Base/Calls.antt =====
-- The outcome of a JavaScript call: it returns a value, or it throws.
use mathlib.Core.Path.{◌≡◌, refl, subst, sym}
use node_fast.Base.Tests.{if◌then◌else◌}
use mathlib.Core.Bool.{Bool, true, false}
use mathlib.Core.Option.{Option, none, some}

-- `assertion` is a failed assert-plus check, and `type_error` a property read of `null` or a call of
-- what is no function; the other constructors name the `throw` statements of the sources and the
-- errors of Node's buffer writes. `out_of_fuel` is no exception of the
-- program: a loop of the model was given too few rounds.
pub data Exception : Type 0 where
  assertion : Exception
  ids_exhausted : Exception
  unsupported_message_status : Exception
  out_of_range : Exception
  type_error : Exception
  out_of_fuel : Exception

pub data Outcome {ℓ} (A : Type ℓ) : Type ℓ where
  ok : A → Outcome A
  throw : Exception → Outcome A

-- The call that follows runs on the value, and an exception skips it.
abbrev pub ◌>>=◌ {ℓ κ} : {V : Type ℓ} {W : Type κ} → Outcome V → (V → Outcome W) → Outcome W
throw x >>= next = throw x
ok v >>= next = next v

abbrev pub ◌>>◌ {ℓ} : {W : Type ℓ} → Outcome (Unit {0}) → Outcome W → Outcome W
check >> next = check >>= (λ done. next)

infixl 5 ◌>>=◌ ◌>>◌
-- A check of assert-plus.
abbrev pub assert : Bool → Outcome (Unit {0})
assert holds = elim holds [ false ↦ throw assertion | true ↦ ok tt ]

-- What a successful call has done: `Returns P m` says that `m` returns, and that `P` holds of the
-- value.
abbrev pub Returns {ℓ κ} : {A : Type ℓ} → (A → Type κ) → Outcome A → Type (ℓ ⊔ κ)
Returns {A} P m = (a : A) × (m ≡ ok a) × P a

pub ok_injective {ℓ} : {A : Type ℓ} {a b : A} → ok a ≡ ok b → a ≡ b
ok_injective e = cc

-- What holds of the value of a call if it returns one.
abbrev pub Whenever {ℓ κ} : {A : Type ℓ} → (A → Type κ) → Outcome A → Type κ
Whenever P (ok a) = P a
Whenever P (throw x) = Unit

pub bind-Whenever {ℓ κ μ ν} :
    {A : Type ℓ} {B : Type κ} (Q : A → Type μ) (P : B → Type ν) (m : Outcome A) (f : A → Outcome B)
    → Whenever Q m
    → ((a : A) → Q a → Whenever P (f a))
    → Whenever P (m >>= f)
bind-Whenever Q P (ok a) f h g = g a h
bind-Whenever Q P (throw x) f h g = tt

pub assert-Whenever {ℓ κ} :
    {A : Type ℓ} (P : A → Type κ) (b : Bool) (m : Outcome A)
    → Whenever P m
    → Whenever P (assert b >> m)
assert-Whenever P true m h = h
assert-Whenever P false m h = tt

-- The same, where the rest relies on the test.
pub assert_split-Whenever {ℓ κ} :
    {A : Type ℓ} (P : A → Type κ) (b : Bool) (m : Outcome A)
    → (b ≡ true → Whenever P m)
    → Whenever P (assert b >> m)
assert_split-Whenever P true m h = h refl
assert_split-Whenever P false m h = tt

pub if-Whenever {ℓ κ} :
    {A : Type ℓ} (P : A → Type κ) (b : Bool) (m n : Outcome A)
    → Whenever P m
    → Whenever P n
    → Whenever P (if b then m else n)
if-Whenever P true m n h k = h
if-Whenever P false m n h k = k

pub Whenever-Returns {ℓ κ μ} :
    {A : Type ℓ} (P : A → Type κ) (Q : A → Type μ) (m : Outcome A)
    → Returns P m
    → Whenever Q m
    → Returns (λ a. P a × Q a) m
Whenever-Returns P Q m (a, e, p) q = (a, e, (p, subst (Whenever Q) e q))

pub Whenever-mono {ℓ κ μ} :
    {A : Type ℓ} (P : A → Type κ) (Q : A → Type μ) (m : Outcome A)
    → Whenever P m
    → ((a : A) → P a → Q a)
    → Whenever Q m
Whenever-mono P Q (ok a) p h = h a p
Whenever-mono P Q (throw x) p h = tt

pub bind-Returns {ℓ κ μ ν} :
    {A : Type ℓ} {B : Type κ} (P : A → Type μ) (Q : B → Type ν) (m : Outcome A) (f : A → Outcome B)
    → Returns P m
    → ((a : A) → P a → Returns Q (f a))
    → Returns Q (m >>= f)
bind-Returns P Q m f (a, e, p) h = subst (λ n. Returns Q (n >>= f)) (sym e) (h a p)

pub branch-Whenever {ℓ κ} :
    {A : Type ℓ} (P : A → Type κ) (b : Bool) (m n : Outcome A)
    → Whenever P m
    → Whenever P n
    → Whenever P (elim b [ false ↦ m | true ↦ n ])
branch-Whenever P false m n h k = h
branch-Whenever P true m n h k = k

pub cases-Whenever {ℓ κ μ} :
    {A : Type ℓ} {B : Type κ} (P : A → Type μ) (o : Option B) (m : Outcome A) (f : B → Outcome A)
    → (o ≡ none → Whenever P m)
    → ((b : B) → o ≡ some b → Whenever P (f b))
    → Whenever P (elim o [ none ↦ m | some b ↦ f b ])
cases-Whenever P none m f h k = h refl
cases-Whenever P (some b) m f h k = k b refl

-- The same, where the branches rely on the test.
pub split-Whenever {ℓ κ} :
    {A : Type ℓ} (P : A → Type κ) (b : Bool) (m n : Outcome A)
    → (b ≡ false → Whenever P m)
    → (b ≡ true → Whenever P n)
    → Whenever P (elim b [ false ↦ m | true ↦ n ])
split-Whenever P false m n h k = h refl
split-Whenever P true m n h k = k refl

pub if_split-Whenever {ℓ κ} :
    {A : Type ℓ} (P : A → Type κ) (b : Bool) (m n : Outcome A)
    → (b ≡ true → Whenever P m)
    → (b ≡ false → Whenever P n)
    → Whenever P (if b then m else n)
if_split-Whenever P true m n h k = h refl
if_split-Whenever P false m n h k = k refl
