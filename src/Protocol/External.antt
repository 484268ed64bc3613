-- ===== src/Protocol/External.antt =====
-- What lib/fast_protocol.js takes from elsewhere: JSON texts, UTF-8, and the two CRC packages
-- (`crc` and the buggy `oldcrc`, neither of which is part of the repository).
use node_fast.Base.{ℕ, ◌^◌, ◌<◌, ◌≡◌, String, Option, some, List, length}
use node_fast.Json.{Json}

pub record Codec : Type 0 where
  -- `JSON.stringify`, and `JSON.parse` with `none` for the SyntaxError that it throws
  pub stringify : Json → String
  pub parse : String → Option Json
  -- `buffer.write(text, ..., 'utf8')` and `buffer.toString('utf8', ...)`
  pub utf8_write : String → List ℕ
  pub utf8_read : List ℕ → String
  -- `mod_old_crc.crc16` and `mod_crc.crc16`
  pub old_crc16 : String → ℕ
  pub crc16 : String → ℕ

-- The documented behaviour that a value relies on when it is sent: its text survives UTF-8 and
-- parses to the value again, both checksums have 16 bits, and its length fits the header.
pub record Transmits (c : Codec) (v : Json) : Type 0 where
  pub utf8 : c.utf8_read (c.utf8_write (c.stringify v)) ≡ c.stringify v
  pub json : c.parse (c.stringify v) ≡ some v
  pub old_crc : c.old_crc16 (c.stringify v) < 2 ^ 16
  pub crc : c.crc16 (c.stringify v) < 2 ^ 16
  pub size : length (c.utf8_write (c.stringify v)) < 2 ^ 32
