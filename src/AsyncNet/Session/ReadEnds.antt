-- ===== src/AsyncNet/Session/ReadEnds.antt =====
-- What every post, every change of the read and every count keeps is kept by the end of a read, with
-- all that processPacket does, in 01_AsyncNet_Server/src/Session.cpp.
use object_oriented_programm.Prelude.{
  ℕ, Bool, Option, none, some, List, [], ltb, ◌==◌, Bool-cases, inl, inr,
}
use object_oriented_programm.AsyncNet.Protocol.{
  Header, ping, echo_request, disconnect, max_payload_size, deserialize_header, default_header,
}
use object_oriented_programm.AsyncNet.Session.{
  Session, Posted, Reading, no_read, header_read, payload_read, post, send, stop, do_read_header,
  do_read_payload, counted, reply, process_packet, on_fields, on_header, on_payload, end_read,
}

module _ {ℓ} (P : Session → Type ℓ) (posts : (p : Posted) (s : Session) → P s → P (post p s))
    (reads : (r : Reading) (s : Session) → P s → P (record s { reading = r }))
    (counts : (s : Session) → P s → P (counted s)) where
  reply-keeps : (h : Header) (payload : List ℕ) (s : Session) → P s → P (reply h payload s)
  unfolding reply send stop
  reply-keeps h payload s p = elim (Bool-cases (h.type == ping)) [
    | inl e ↦ rw e (posts _ s p)
    | inr e ↦ elim (Bool-cases (h.type == echo_request)) [
      | inl f ↦ rw (e, f) (posts _ s p)
      | inr f ↦ elim (Bool-cases (h.type == disconnect)) [
        | inl g ↦ rw (e, f, g) (posts _ s p)
        | inr g ↦ rw (e, f, g) p
      ]
    ]
  ]

  on_fields-keeps : (answer : Bool × Header) (s : Session) → P s → P (on_fields answer s)
  unfolding on_fields stop do_read_payload do_read_header process_packet
  on_fields-keeps (accepted, h) s p = elim (Bool-cases accepted) [
    | inr e ↦ rw e (posts _ s p)
    | inl e ↦ elim (Bool-cases (ltb max_payload_size h.length)) [
      | inl f ↦ rw (e, f) (posts _ s p)
      | inr f ↦ elim (Bool-cases (ltb 0 h.length)) [
        | inl g ↦ rw (e, f, g) (reads _ s p)
        | inr g ↦ rw (e, f, g) (reads _ _ (reply-keeps h [] (counted s) (counts s p)))
      ]
    ]
  ]

  pub end_read-keeps :
      (reading : Reading) (result : Option (List ℕ)) (s : Session)
      → P s
      → P (end_read reading result s)
  unfolding end_read on_header on_payload stop do_read_header process_packet
  end_read-keeps no_read result s p = p
  end_read-keeps header_read none s p = posts _ _ (reads _ s p)
  end_read-keeps header_read (some bytes) s p =
      on_fields-keeps (deserialize_header bytes default_header) _ (reads _ s p)
  end_read-keeps (payload_read h) none s p = posts _ _ (reads _ s p)
  end_read-keeps (payload_read h) (some payload) s p =
      reads _ _ (reply-keeps h payload _ (counts _ (reads _ s p)))
