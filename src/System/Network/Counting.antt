-- ===== src/System/Network/Counting.antt =====
-- Messages in a channel, counted by their identifiers.
use node_fast.Base.{
  ℕ, ◌+◌, ◌≤◌, ◌≡◌, refl, ap, ◌∙◌, true, Option, none, some, List, [], ◌∷◌, ◌++◌,
  drop-length_append, arith,
}
use node_fast.Protocol.{Message}
use node_fast.Server.Effects.{mentions, finals, as_list}
use node_fast.System.Network.{news, is_tidy}

pub mentions-append :
    (k : ℕ) (xs ys : List Message) → mentions k (xs ++ ys) ≡ mentions k xs + mentions k ys
mentions-append k [] ys = omega arith
mentions-append k (x ∷ xs) ys = omega (arith, mentions-append k xs ys)

pub finals-append : (k : ℕ) (xs ys : List Message) → finals k (xs ++ ys) ≡ finals k xs + finals k ys
finals-append k [] ys = omega arith
finals-append k (x ∷ xs) ys = omega (arith, finals-append k xs ys)

pub finals-mentions : (k : ℕ) (xs : List Message) → finals k xs ≤ mentions k xs
finals-mentions k [] = omega arith
finals-mentions k (x ∷ xs) = ground (arith, finals-mentions k xs)

-- A message may follow when none has ended its request.
pub is_tidy-append :
    (k : ℕ) (xs ys : List Message)
    → is_tidy k xs ≡ true
    → is_tidy k ys ≡ true
    → finals k xs ≡ 0
    → is_tidy k (xs ++ ys) ≡ true
is_tidy-append k [] ys e f none_yet = f
is_tidy-append k (x ∷ xs) ys e f none_yet =
    ground (arith, is_tidy-append k xs ys, finals-mentions k xs)

unmentioned : (k : ℕ) (xs : List Message) → mentions k xs ≡ 0 → is_tidy k xs ≡ true
unmentioned k [] e = refl
unmentioned k (x ∷ xs) e = ground (arith, unmentioned k xs)

-- Messages with other identifiers may follow anything.
pub is_tidy-other :
    (k : ℕ) (xs ys : List Message)
    → is_tidy k xs ≡ true
    → mentions k ys ≡ 0
    → is_tidy k (xs ++ ys) ≡ true
is_tidy-other k [] ys e f = unmentioned k ys f
is_tidy-other k (x ∷ xs) ys e f = ground (arith, is_tidy-other k xs ys, mentions-append k xs ys)

pub is_tidy-as_list : (k : ℕ) (o : Option Message) → is_tidy k (as_list o) ≡ true
is_tidy-as_list k none = refl
is_tidy-as_list k (some m) = ground arith

pub news-append : (old new xs : List Message) → new ≡ old ++ xs → news old new ≡ xs
news-append old new xs e = ap (news old) e ∙ drop-length_append old xs
