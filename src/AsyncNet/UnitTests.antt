-- ===== src/AsyncNet/UnitTests.antt =====
-- 01_AsyncNet_Server/tests/TestProtocol.cpp: each test as the list of the conditions that it asserts.
use object_oriented_programm.Prelude.{
  ℕ, ◌+◌, ◌≡◌, refl, Bool, true, false, not, List, [], ◌∷◌, ◌==◌, ◌&&◌, length, drop,
}
use object_oriented_programm.AsyncNet.Protocol.{
  Header, Packet, magic_header, header_size, echo_request, ping, default_header, read_header,
  serialize_header, deserialize_header, serialize_packet,
}

abbrev same_bytes : List ℕ → List ℕ → Bool
same_bytes [] [] = true
same_bytes [] (y ∷ ys) = false
same_bytes (x ∷ xs) [] = false
same_bytes (x ∷ xs) (y ∷ ys) = (x == y) && same_bytes xs ys

test_header_serialization : List Bool
unfolding serialize_header deserialize_header
test_header_serialization =
    let original : Header = record { magic = magic_header; type = echo_request; length = 1024 } in
    let bytes = serialize_header original in
    let (success, deserialized) = deserialize_header bytes default_header in
    (length bytes == header_size)
    ∷ success
    ∷ (deserialized.magic == original.magic)
    ∷ (deserialized.type == original.type)
    ∷ (deserialized.length == original.length)
    ∷ []

test_invalid_magic_header : List Bool
unfolding serialize_header deserialize_header
test_invalid_magic_header =
    let original : Header = record { magic = 57005; type = ping; length = 0 } in
    let (success, deserialized) = deserialize_header (serialize_header original) default_header in
    not success ∷ []

-- "Hello AsyncNet Protocol".
abbrev text : List ℕ
text =
    72 ∷ 101 ∷ 108 ∷ 108 ∷ 111 ∷ 32 ∷ 65 ∷ 115 ∷ 121 ∷ 110 ∷ 99 ∷ 78 ∷ 101 ∷ 116 ∷ 32 ∷ 80 ∷ 114
    ∷ 111 ∷ 116 ∷ 111 ∷ 99 ∷ 111 ∷ 108 ∷ []

test_packet_serialization : List Bool
unfolding serialize_packet deserialize_header
test_packet_serialization =
    let packet : Packet = record {
      header = record { magic = magic_header; type = echo_request; length = length text };
      payload = text;
    } in
    let bytes = serialize_packet packet in
    let (success, parsed) = deserialize_header bytes default_header in
    (length bytes == header_size + length text)
    ∷ success
    ∷ (parsed.length == length text)
    ∷ (parsed.type == echo_request)
    ∷ same_bytes (drop header_size bytes) text
    ∷ []

header_passes : test_header_serialization ≡ true ∷ true ∷ true ∷ true ∷ true ∷ []
unfolding test_header_serialization read_header
header_passes = refl

invalid_magic_passes : test_invalid_magic_header ≡ true ∷ []
unfolding test_invalid_magic_header read_header
invalid_magic_passes = refl

packet_passes : test_packet_serialization ≡ true ∷ true ∷ true ∷ true ∷ true ∷ []
unfolding test_packet_serialization read_header
packet_passes = refl
