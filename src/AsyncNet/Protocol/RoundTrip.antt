-- ===== src/AsyncNet/Protocol/RoundTrip.antt =====
-- What serializeHeader and serializePacket write, deserializeHeader reads.
use object_oriented_programm.Prelude.{
  ℕ, ◌+◌, ◌%◌, ◌^◌, ◌≡◌, refl, ◌<◌, true, false, List, [], ◌∷◌, ◌++◌, ltb, ◌==◌, length, drop,
  arith, ap, subst, Bool-cases, inl, inr, ◌∙◌,
}
use object_oriented_programm.AsyncNet.Protocol.{
  magic_header, header_size, Header, Packet, serialize_header, read_header, deserialize_header,
  serialize_packet,
}
use object_oriented_programm.AsyncNet.Protocol.Bytes.{bytes16, bytes32, number16, number32}

header_eq :
    (m t l m' t' l' : ℕ)
    → m ≡ m'
    → t ≡ t'
    → l ≡ l'
    → ◌≡◌ {A = Header}
        (record { magic = m; type = t; length = l })
        (record { magic = m'; type = t'; length = l' })
header_eq m t l m' t' l' e f g = rw (e, f, g)

read-serialize :
    (h : Header) (rest : List ℕ)
    → h.magic < 65536
    → h.type < 65536
    → h.length < 4294967296
    → read_header (serialize_header h ++ rest) ≡ h
unfolding read_header serialize_header
read-serialize h rest m t l =
    header_eq _ _ _ h.magic h.type h.length (bytes16 h.magic m) (bytes16 h.type t)
      (bytes32 h.length l)

length-serialize :
    (h : Header) (rest : List ℕ) → length (serialize_header h ++ rest) ≡ 8 + length rest
unfolding serialize_header
length-serialize h rest = omega arith

-- A header with the protocol's magic number, a 16-bit type and a 32-bit length comes back unchanged
-- from deserializeHeader of what serializeHeader wrote, whatever bytes follow it and whatever the
-- out parameter held.
pub deserialize-serialize :
    (h old : Header) (rest : List ℕ)
    → h.magic ≡ magic_header
    → h.type < 65536
    → h.length < 2 ^ 32
    → deserialize_header (serialize_header h ++ rest) old ≡ (true, h)
unfolding deserialize_header
deserialize-serialize h old rest magic type small =
    let long : ltb (length (serialize_header h ++ rest)) header_size ≡ false =
      ground (arith, length-serialize h rest) in
    let own : (h.magic == magic_header) ≡ true = ground arith in
    rw (long, read-serialize h rest (ground arith) type small, own)

abbrev pub AllBytes : List ℕ → Type 0
AllBytes [] = Unit {0}
AllBytes (b ∷ bs) = (b < 256) × AllBytes bs

serialize-read :
    (b0 b1 b2 b3 b4 b5 b6 b7 : ℕ) (rest : List ℕ)
    → let buffer = b0 ∷ b1 ∷ b2 ∷ b3 ∷ b4 ∷ b5 ∷ b6 ∷ b7 ∷ rest in
      AllBytes buffer → serialize_header (read_header buffer) ++ rest ≡ buffer
unfolding read_header serialize_header
serialize-read b0 b1 b2 b3 b4 b5 b6 b7 rest (l0, (l1, (l2, (l3, (l4, (l5, (l6, (l7, ls)))))))) =
    let (e0, e1) = number16 b0 b1 l0 l1 in
    let (e2, e3) = number16 b2 b3 l2 l3 in
    let (e4, e5, e6, e7) = number32 b4 b5 b6 b7 l4 l5 l6 l7 in rw (e0, e1, e2, e3, e4, e5, e6, e7)

accepted :
    (buffer : List ℕ) (old h : Header)
    → deserialize_header buffer old ≡ (true, h)
    → read_header buffer ≡ h
unfolding deserialize_header
accepted buffer old h e = elim (Bool-cases (ltb (length buffer) header_size)) [
  | inl short ↦ let e' = rw short at e in cc
  | inr long ↦ elim (Bool-cases ((read_header buffer).magic == magic_header)) [
    | inl own ↦ ap (λ x. x.1) (rw (long, own) at e)
    | inr foreign ↦ let e' = rw (long, foreign) at e in cc
  ]
]

-- If deserializeHeader accepts a buffer of bytes and reads a header, serializeHeader of that header
-- writes the first 8 bytes of the buffer again.
pub serialize-deserialize :
    (buffer : List ℕ) (old h : Header)
    → AllBytes buffer
    → deserialize_header buffer old ≡ (true, h)
    → serialize_header h ++ drop header_size buffer ≡ buffer
unfolding deserialize_header
serialize-deserialize (b0 ∷ b1 ∷ b2 ∷ b3 ∷ b4 ∷ b5 ∷ b6 ∷ b7 ∷ rest) old h bytes e =
    let buffer = b0 ∷ b1 ∷ b2 ∷ b3 ∷ b4 ∷ b5 ∷ b6 ∷ b7 ∷ rest in
    subst (λ x. serialize_header x ++ rest ≡ buffer) (accepted buffer old h e)
      (serialize-read b0 b1 b2 b3 b4 b5 b6 b7 rest bytes)
serialize-deserialize buffer old h bytes e = ground arith

-- For a packet with the protocol's magic number, a 16-bit type and a payload of less than 2 ^ 32
-- bytes, whatever bytes follow: deserializeHeader accepts what serializePacket wrote and reads the
-- packet's header with the payload's length, behind the header stand the payload and then the bytes
-- that follow, and the packet takes 8 bytes more than its payload.
pub serialize_packet-frames :
    (p : Packet) (old : Header) (rest : List ℕ)
    → p.header.magic ≡ magic_header
    → p.header.type < 65536
    → length p.payload < 2 ^ 32
    → (deserialize_header (serialize_packet p ++ rest) old
        ≡ (true, record p.header { length = length p.payload }))
      × (drop header_size (serialize_packet p ++ rest) ≡ p.payload ++ rest)
      × (length (serialize_packet p) ≡ header_size + length p.payload)
unfolding serialize_packet serialize_header
serialize_packet-frames p old rest magic type small =
    let n = length p.payload in
    let exact : n % 2 ^ 32 ≡ n = omega arith in
    let sent = record p.header { length = n % 2 ^ 32 } in
    (
      deserialize-serialize sent old (p.payload ++ rest) magic type (omega arith)
          ∙ ap (λ l. (true, record p.header { length = l })) exact,
      refl,
      omega (arith, length-serialize sent p.payload),
    )
