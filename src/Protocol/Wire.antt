-- ===== src/Protocol/Wire.antt =====
-- The constants of lib/fast_protocol.js, and the Buffer methods that read and write its fields.
use node_fast.Base.{
  ℕ, ◌+◌, ◌-◌, ◌*◌, ◌/◌, ◌%◌, ◌^◌, ◌≡◌, Bool, ◌||◌, List, [], ◌∷◌, arith, ◌==◌, ltb, if◌then◌else◌,
  get_or, Outcome, ok, throw, out_of_range,
}

abbrev pub msgid_max : ℕ
msgid_max = 2 ^ 31 - 1

-- Field offsets.
abbrev pub off_version : ℕ
off_version = 0

abbrev pub off_type : ℕ
off_type = off_version + 1

abbrev pub off_status : ℕ
off_status = off_type + 1

abbrev pub off_msgid : ℕ
off_msgid = off_status + 1

abbrev pub off_crc : ℕ
off_crc = off_msgid + 4

abbrev pub off_datalen : ℕ
off_datalen = off_crc + 4

abbrev pub off_data : ℕ
off_data = off_datalen + 4

abbrev pub header_sz : ℕ
header_sz = off_data

abbrev pub status_data : ℕ
status_data = 1

abbrev pub status_end : ℕ
status_end = 2

abbrev pub status_error : ℕ
status_error = 3

abbrev pub type_json : ℕ
type_json = 1

abbrev pub version_1 : ℕ
version_1 = 1

abbrev pub version_2 : ℕ
version_2 = 2

abbrev pub version_current : ℕ
version_current = version_2

-- The `switch` over the status that encoder and decoder share.
abbrev pub is_status : ℕ → Bool
is_status s = s == status_data || (s == status_end || s == status_error)

-- `buf.readUInt8(off)`. The callers have checked that the buffer holds a header.
unfoldable pub read_uint8 : List ℕ → ℕ → ℕ
read_uint8 buf off = get_or buf off 0

-- `buf.readUInt32BE(off)`
unfoldable pub read_uint32_be : List ℕ → ℕ → ℕ
read_uint32_be buf off =
    get_or buf off 0 * 2 ^ 24
    + get_or buf (off + 1) 0 * 2 ^ 16
    + get_or buf (off + 2) 0 * 2 ^ 8
    + get_or buf (off + 3) 0

-- `buf.writeUInt8(v, off)`, which throws when the value does not fit.
unfoldable pub write_uint8 : ℕ → Outcome (List ℕ)
write_uint8 v = if ltb v (2 ^ 8) then ok (v ∷ []) else throw out_of_range

abbrev pub uint32_bytes : ℕ → List ℕ
uint32_bytes v = v / 2 ^ 24 ∷ v / 2 ^ 16 % 2 ^ 8 ∷ v / 2 ^ 8 % 2 ^ 8 ∷ v % 2 ^ 8 ∷ []

-- `buf.writeUInt32BE(v, off)`
unfoldable pub write_uint32_be : ℕ → Outcome (List ℕ)
write_uint32_be v = if ltb v (2 ^ 32) then ok (uint32_bytes v) else throw out_of_range

pub uint32_round_trip :
    (v : ℕ)
    → v / 2 ^ 24 * 2 ^ 24 + v / 2 ^ 16 % 2 ^ 8 * 2 ^ 16 + v / 2 ^ 8 % 2 ^ 8 * 2 ^ 8 + v % 2 ^ 8 ≡ v
uint32_round_trip v = omega arith
