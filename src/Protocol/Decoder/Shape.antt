-- ===== src/Protocol/Decoder/Shape.antt =====
-- What the messages look like that `FastMessageDecoder` of lib/fast_protocol.js emits.
use node_fast.Base.{
  ℕ, ◌^◌, ◌==◌, ◌||◌, ◌<◌, String, ◌≡◌, refl, ◌⊎◌, true, Bool-cases, inl, inr, Option, none, some,
  List, [], ◌∷◌, arith, ok,
}
use node_fast.Json.{Json, Items, null, bool, num, str, arr, obj, get, get?, is_array?, is_string?}
use node_fast.Protocol.Wire.{status_data, status_end, status_error, is_status}
use node_fast.Protocol.External.{Codec}
use node_fast.Protocol.Encode.{Message}
use node_fast.Protocol.Decode.{check_data}
use node_fast.Protocol.Decoder.{Decoder, create, feed}
use node_fast.Protocol.Decoder.Chunks.{feed-Parses}
use node_fast.Protocol.Decoder.WellFormed.{IsKnown, AllWellFormed, Parses-AllWellFormed}

-- What client and server may rely on: a DATA or END message has an array as the `d` of its data,
-- and an ERROR message has one with two texts, name and message.
pub data HasData (status : ℕ) (payload : Json) : Type 0 where
  values :
      (vs : Items)
      → (status ≡ status_data) ⊎ (status ≡ status_end)
      → get "d" payload ≡ some (arr vs)
      → HasData status payload
  error :
      (d : Json) (name message : String)
      → status ≡ status_error
      → get "d" payload ≡ some d
      → get "name" d ≡ some (str name)
      → get "message" d ≡ some (str message)
      → HasData status payload

pub record IsShaped (m : Message) : Type 0 where
  pub msgid_ok : m.msgid < 2 ^ 31
  pub version_ok : IsKnown m.version
  pub data_ok : HasData m.status m.payload

abbrev pub AllShaped : List Message → Type 0
AllShaped [] = Unit {0}
AllShaped (m ∷ ms) = IsShaped m × AllShaped ms

array_of : (o : Option Json) → is_array? o ≡ true → (vs : Items) × (o ≡ some (arr vs))
array_of (some (arr vs)) e = (vs, refl)
array_of none e = cc
array_of (some null) e = cc
array_of (some (bool b)) e = cc
array_of (some (num n)) e = cc
array_of (some (str t)) e = cc
array_of (some (obj fs)) e = cc

text_of : (o : Option Json) → is_string? o ≡ true → (t : String) × (o ≡ some (str t))
text_of (some (str t)) e = (t, refl)
text_of none e = cc
text_of (some null) e = cc
text_of (some (bool b)) e = cc
text_of (some (num n)) e = cc
text_of (some (arr vs)) e = cc
text_of (some (obj fs)) e = cc

error-HasData :
    (status : ℕ) (payload : Json) (o : Option Json)
    → get "d" payload ≡ o
    → status ≡ status_error
    → is_string? (get? "name" o) ≡ true
    → is_string? (get? "message" o) ≡ true
    → HasData status payload
error-HasData status payload none e same f g = cc
error-HasData status payload (some d) e same f g =
    let (name, named) = text_of (get "name" d) f in
    let (told, explained) = text_of (get "message" d) g in error d name told same e named explained

check_data-HasData :
    (status : ℕ) (payload : Json)
    → is_status status ≡ true
    → check_data status payload ≡ none
    → HasData status payload
unfolding check_data
check_data-HasData status payload known e =
    elim (Bool-cases (status == status_data || status == status_end)) [
      | inl f ↦
          let (vs, g) = array_of (get "d" payload) (ground arith) in values vs (ground arith) g
      | inr f ↦
          error-HasData status payload (get "d" payload) refl (ground arith) (ground arith)
            (ground arith)
    ]

AllWellFormed-AllShaped : (ms : List Message) → AllWellFormed ms → AllShaped ms
AllWellFormed-AllShaped [] h = tt
AllWellFormed-AllShaped (m ∷ ms) (first, rest) = (
  record {
    msgid_ok = omega (arith, first.msgid_ok);
    version_ok = first.version_ok;
    data_ok = check_data-HasData m.status m.payload first.status_ok first.data_ok;
  },
  AllWellFormed-AllShaped ms rest,
)

-- Whatever bytes arrive, in whatever chunks, no exception is thrown, and every message that the
-- decoder pushes has an identifier below 2 ^ 31 and one of the two versions. It is a DATA or END
-- message whose data has an array as its `d`, or an ERROR message whose data has a `d` with a name
-- and a message, both texts.
pub feed-AllShaped :
    (c : Codec) (chunks : List (List ℕ))
    → (t : Decoder) × (feed c chunks create ≡ ok t) × AllShaped t.pushed
feed-AllShaped c chunks =
    let (t, e, reads) = feed-Parses c chunks in
    (t, e, AllWellFormed-AllShaped t.pushed (Parses-AllWellFormed reads.1))
