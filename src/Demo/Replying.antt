-- ===== src/Demo/Replying.antt =====
-- Every handler of lib/demo_server.js keeps to its part, whatever the client sends, unless it
-- throws.
use text.Mathlib.Text.{◌==◌ as str_eq}
use node_fast.Base.{
  ◌≡◌, refl, String, Bool, true, false, not, ◌&&◌, ◌||◌, List, [], ◌∷◌, ◌++◌, is_none,
  if◌then◌else◌, Outcome, throw, type_error, Returns,
}
use node_fast.Json.{Json, null, get, is_object}
use node_fast.Server.Replies.{Action, write, finish, fail, set_timeout, set_immediate, is_reply}
use node_fast.Server.Lifecycle.{is_empty}
use node_fast.Demo.Errors.{Errors}
use node_fast.Demo.Handlers.{write_each}

abbrev is_null : Json → Bool
is_null null = true
is_null _ = false

-- The calls that make a handler throw: `null` where an object is expected, and a property that
-- hides `hasOwnProperty`.
abbrev pub throws_on : String → List Json → Bool
throws_on name (arg ∷ []) =
    if str_eq name "fail" || (str_eq name "sleep" || str_eq name "yes")
    then is_null arg
    else if str_eq name "fastbench"
    then not (is_none (get "hasOwnProperty" arg))
    else false
throws_on name _ = false

-- The handler writes objects only, and then either ends its context or fails, once and as the last
-- thing that it does.
abbrev is_strict : List Action → Bool
is_strict [] = false
is_strict (write value ∷ rest) = is_object value && is_strict rest
is_strict (finish ∷ rest) = is_empty rest
is_strict (fail e ∷ rest) = is_empty rest
is_strict (set_timeout ms ∷ rest) = is_strict rest
is_strict (set_immediate ∷ rest) = is_strict rest

-- `words` alone may go on writing after it has failed.
abbrev keeps_to : String → List Action → Bool
keeps_to name acts = if str_eq name "words" then is_reply acts else is_strict acts

-- What a handler does with the arguments `argv`: it throws a TypeError, or it makes a reply.
abbrev pub Answers : String → Bool → Outcome (List Action) → Type 0
Answers name true m = m ≡ throw type_error
Answers name false m = Returns (λ acts. keeps_to name acts ≡ true) m

abbrev pub AllAnswer : List Json → List (String × (List Json → Outcome (List Action))) → Type 0
AllAnswer argv [] = Unit {0}
AllAnswer argv ((name, handler) ∷ rest) =
    Answers name (throws_on name argv) (handler argv) × AllAnswer argv rest

pub write_each-is_reply :
    (vs : List Json) (rest : List Action) → is_reply (write_each vs ++ rest) ≡ is_reply rest
write_each-is_reply [] rest = refl
write_each-is_reply (v ∷ vs) rest = write_each-is_reply vs rest
