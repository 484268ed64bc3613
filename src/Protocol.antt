-- ===== src/Protocol.antt =====
-- lib/fast_protocol.js: the message format, the encoder and the stream decoder.
mod Wire
mod External
mod Encode
mod Decode
pub mod Decoder
unfoldable pub use Wire.*
unfoldable pub use External.*
unfoldable pub use Encode.*
unfoldable pub use Decode.*
