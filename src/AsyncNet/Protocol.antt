-- ===== src/AsyncNet/Protocol.antt =====
-- 01_AsyncNet_Server/include/Common.hpp and src/Protocol.cpp. A byte is a number below 256 and a
-- buffer a list of bytes. A message type is any uint16_t, since static_cast makes one of each.
pub mod Bytes
pub mod RoundTrip
use object_oriented_programm.Prelude.{
  ℕ, zero, suc, ◌+◌, ◌-◌, ◌*◌, ◌/◌, ◌%◌, ◌^◌, Bool, true, false, List, [], ◌∷◌, ◌++◌, ltb, ◌==◌,
  not, if◌then◌else◌, length,
}

abbrev pub magic_header : ℕ
magic_header = 16718

abbrev pub header_size : ℕ
header_size = 8

abbrev pub max_payload_size : ℕ
max_payload_size = 65536

abbrev pub MessageType : Type 0
MessageType = ℕ

abbrev pub ping : MessageType
ping = 1

abbrev pub pong : MessageType
pong = 2

abbrev pub echo_request : MessageType
echo_request = 3

abbrev pub echo_response : MessageType
echo_response = 4

abbrev pub data_stream : MessageType
data_stream = 5

abbrev pub disconnect : MessageType
disconnect = 255

abbrev pub unknown : MessageType
unknown = 65535

pub record Header : Type 0 where
  pub magic : ℕ
  pub type : MessageType
  pub length : ℕ

pub record Packet : Type 0 where
  pub header : Header
  pub payload : List ℕ

-- `Header{}`.
abbrev pub default_header : Header
default_header = record { magic = magic_header; type = unknown; length = 0 }

-- The bytes in memory of `htons` of a 16-bit and `htonl` of a 32-bit value.
unfoldable pub net16 : ℕ → List ℕ
net16 n = n / 256 % 256 ∷ n % 256 ∷ []

unfoldable pub net32 : ℕ → List ℕ
net32 n = n / 16777216 % 256 ∷ n / 65536 % 256 ∷ n / 256 % 256 ∷ n % 256 ∷ []

unfoldable pub serialize_header : Header → List ℕ
unfolding net16 net32
serialize_header h = net16 h.magic ++ net16 h.type ++ net32 h.length

-- The byte at an index of the buffer; the callers stay inside it.
unfoldable pub byte_at : List ℕ → ℕ → ℕ
byte_at [] i = 0
byte_at (b ∷ bs) i = if i == 0 then b else byte_at bs (i - 1)

-- `ntohs` and `ntohl` of the bytes that start at an index.
unfoldable pub host16 : List ℕ → ℕ → ℕ
unfolding byte_at
host16 buffer i = byte_at buffer i * 256 + byte_at buffer (i + 1)

unfoldable pub host32 : List ℕ → ℕ → ℕ
unfolding byte_at
host32 buffer i =
    byte_at buffer i * 16777216
    + byte_at buffer (i + 1) * 65536
    + byte_at buffer (i + 2) * 256
    + byte_at buffer (i + 3)

-- The three fields of a buffer.
unfoldable pub read_header : List ℕ → Header
unfolding host16 host32
read_header buffer = record {
  magic = host16 buffer 0;
  type = host16 buffer 2;
  length = host32 buffer 4;
}

-- The result, and what the out parameter holds: a foreign magic number is refused after the fields
-- are written.
unfoldable pub deserialize_header : List ℕ → Header → Bool × Header
deserialize_header buffer header =
    if ltb (length buffer) header_size
    then (false, header)
    else if not ((read_header buffer).magic == magic_header)
    then (false, read_header buffer)
    else (true, read_header buffer)

unfoldable pub serialize_packet : Packet → List ℕ
unfolding serialize_header
serialize_packet p =
    serialize_header (record p.header { length = length p.payload % 2 ^ 32 }) ++ p.payload

unfoldable pub create_echo_response : List ℕ → Packet
create_echo_response payload = record {
  header = record { magic = magic_header; type = echo_response; length = length payload % 2 ^ 32 };
  payload = payload;
}

unfoldable pub create_pong_packet : Packet
create_pong_packet = record {
  header = record { magic = magic_header; type = pong; length = 0 };
  payload = [];
}
