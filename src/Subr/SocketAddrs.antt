-- ===== src/Subr/SocketAddrs.antt =====
-- `summarizeSocketAddrs` of lib/subr.js. A property that JavaScript leaves `undefined` is `none`;
-- an address that is an empty text and a port that is 0 are falsy, as in the source.
use text.Mathlib.Text.{◌==◌ as str_eq}
use node_fast.Base.{ℕ, String, Bool, ◌&&◌, Option, none, some, ◌==◌, if◌then◌else◌, is_none}

-- What `sock.address()` returns when it is not null.
pub record LocalAddress : Type 0 where
  pub family : Option String
  pub address : String
  pub port : ℕ

-- The properties of a Node socket that are read.
pub record Socket : Type 0 where
  pub local : Option LocalAddress
  pub remote_address : Option String
  pub remote_port : Option ℕ
  pub remote_family : Option String

-- The text that the label holds: `host` or `host:port`, or one of two words.
pub data Label : Type 0 where
  uds unknown : Label
  host : String → Label
  host_port : String → ℕ → Label

pub data SocketType : Type 0 where
  uds_inferred unknown : SocketType
  family : String → SocketType

pub record Summary : Type 0 where
  pub remote_address : Option String
  pub remote_port : Option ℕ
  pub socket_type : SocketType
  pub local_address : Option String
  pub local_port : Option ℕ
  pub label : Label

-- The tests `if (sock.remoteAddress)`, `laddr.family ? ...` and `if (sock.remotePort)`.
abbrev truthy_text : Option String → Option String
truthy_text none = none
truthy_text (some s) = if str_eq s "" then none else some s

abbrev truthy_number : Option ℕ → Option ℕ
truthy_number none = none
truthy_number (some n) = if n == 0 then none else some n

abbrev host_label : String → Option ℕ → Label
host_label h none = host h
host_label h (some p) = host_port h p

abbrev remote_label : Option String → Option ℕ → Label
remote_label none port = Label.unknown
remote_label (some h) port = host_label h (truthy_number port)

abbrev family_type : Option String → SocketType
family_type none = SocketType.unknown
family_type (some f) = family f

abbrev is_uds : Socket → Bool
is_uds s = is_none s.remote_address && (is_none s.remote_port && is_none s.remote_family)

abbrev uds_summary : Summary
uds_summary = record {
  remote_address = none;
  remote_port = none;
  socket_type = uds_inferred;
  local_address = none;
  local_port = none;
  label = uds;
}

abbrev tcp_summary : Option LocalAddress → Socket → Summary
tcp_summary none s = record {
  remote_address = s.remote_address;
  remote_port = s.remote_port;
  socket_type = SocketType.unknown;
  local_address = none;
  local_port = none;
  label = Label.unknown;
}
tcp_summary (some l) s = record {
  remote_address = s.remote_address;
  remote_port = s.remote_port;
  socket_type = family_type (truthy_text l.family);
  local_address = some l.address;
  local_port = some l.port;
  label = remote_label (truthy_text s.remote_address) s.remote_port;
}

unfoldable pub summarize_socket_addrs : Socket → Summary
summarize_socket_addrs s = if is_uds s then uds_summary else tcp_summary s.local s
