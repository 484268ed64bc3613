-- ===== src/Json.antt =====
-- JavaScript values as JSON carries them, and the tests that lib/fast_protocol.js,
-- lib/fast_client.js and lib/fast_server.js make of a message's data. Numbers are whole.
use text.Mathlib.Text.{◌==◌ as str_eq}
use node_fast.Base.{
  zero, String, Bool, true, false, not, Option, none, some, List, [], ◌∷◌, if◌then◌else◌,
}
use node_fast.Base.Int.{ℤ, pos}

mutual
  pub data Json : Type 0 where
    null : Json
    bool : Bool → Json
    num : ℤ → Json
    str : String → Json
    arr : Items → Json
    obj : Fields → Json

  pub data Items : Type 0 where
    nil : Items
    cons : Json → Items → Items

  pub data Fields : Type 0 where
    end : Fields
    field : String → Json → Fields → Fields

abbrev pub lookup_field : String → Fields → Option Json
lookup_field k end = none
lookup_field k (field j v fs) = if str_eq k j then some v else lookup_field k fs

-- `value.name`; `none` is JavaScript's `undefined`.
abbrev pub get : String → Json → Option Json
get k (obj fs) = lookup_field k fs
get k _ = none

abbrev is_zero : ℤ → Bool
is_zero (pos zero) = true
is_zero _ = false

-- The test `if (value)`.
abbrev pub is_truthy : Json → Bool
is_truthy null = false
is_truthy (bool b) = b
is_truthy (num n) = not (is_zero n)
is_truthy (str t) = not (str_eq t "")
is_truthy _ = true

-- `typeof (value) == 'object' && value !== null`
abbrev pub is_object : Json → Bool
is_object (arr _) = true
is_object (obj _) = true
is_object _ = false

-- The same of a property that may be undefined.
abbrev pub is_object? : Option Json → Bool
is_object? none = false
is_object? (some v) = is_object v

-- `Array.isArray(value)`
abbrev pub is_array? : Option Json → Bool
is_array? (some (arr _)) = true
is_array? _ = false

-- `typeof (value) == 'string'`
abbrev pub is_string? : Option Json → Bool
is_string? (some (str _)) = true
is_string? _ = false

-- A property of a property: `value.d.name`, where `value.d` is known to be an object.
abbrev pub get? : String → Option Json → Option Json
get? k none = none
get? k (some v) = get k v

abbrev pub to_list : Items → List Json
to_list nil = []
to_list (cons v vs) = v ∷ to_list vs

-- The elements of an array.
abbrev pub elements? : Option Json → List Json
elements? (some (arr vs)) = to_list vs
elements? _ = []
