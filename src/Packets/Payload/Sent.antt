-- ===== src/Packets/Payload/Sent.antt =====
-- The packets that the programs send to one another, through an archive and back.
use packet_distribution_syst.Prelude.{◌≡◌, refl, Option, none, some, ◌++◌, IsInt32, true}
use packet_distribution_syst.Archive.{Bytes, Codec, saving, loading, ◌>>=◌}
use packet_distribution_syst.Archive.Layout.{Layout}
use packet_distribution_syst.Packets.{Packet, dh_request, dh_response, ping, pong, message, echo}
use packet_distribution_syst.Packets.Catalogue.{
  PacketType, dh_key_exchange_request_packet, dh_key_exchange_response_packet, ping_packet,
  pong_packet, message_packet, echo_packet,
}
use packet_distribution_syst.Packets.Parts.{Object}
use packet_distribution_syst.Packets.Parts.Arrival.{PartFits, complete}
use packet_distribution_syst.Packets.Payload.{parts, Objects, Payload, serialize_packet}
use packet_distribution_syst.Packets.Payload.Arrival.{
  PartsFit, all_complete, serialize_packet-Arrives,
}

unfoldable pub packet_type : Packet → PacketType
packet_type (dh_request packet) = dh_key_exchange_request_packet
packet_type (dh_response packet) = dh_key_exchange_response_packet
packet_type ping = ping_packet
packet_type pong = pong_packet
packet_type (message packet) = message_packet
packet_type (echo packet) = echo_packet

-- The number of rounds of a response is an int.
unfoldable pub PacketFits : Packet → Type 0
PacketFits (dh_response packet) = IsInt32 packet.n_rounds
PacketFits _ = Unit

module _ (C : Codec) where
  -- The members of a packet, as the handlers read and write them, in the order of its macro call.
  unfoldable pub members : (packet : Packet) → Payload C (packet_type packet)
  unfolding packet_type parts Objects Object
  members (dh_request packet) = (packet.public_key, tt)
  members (dh_response packet) =
      (packet.public_key, (packet.salt, (packet.n_rounds, (packet.signature, tt))))
  members ping = tt
  members pong = tt
  members (message packet) = (packet.message, tt)
  members (echo packet) = (packet.echo_message, tt)

  -- The packet with these members, of a type that the programs send.
  unfoldable pub packet_of : (type : PacketType) → Payload C type → Option Packet
  unfolding parts Objects Object
  packet_of dh_key_exchange_request_packet x = some (dh_request (record { public_key = x.0 }))
  packet_of dh_key_exchange_response_packet (public_key, (salt, (n_rounds, (signature, _)))) =
      some (
        dh_response (record {
          public_key = public_key;
          salt = salt;
          n_rounds = n_rounds;
          signature = signature;
        }))
  packet_of ping_packet x = some ping
  packet_of pong_packet x = some pong
  packet_of message_packet x = some (message (record { message = x.0 }))
  packet_of echo_packet x = some (echo (record { echo_message = x.0 }))
  packet_of _ x = none

module _ (C : Codec) (layout : Layout C) where
  unfoldable pub save_packet : Packet → Bytes → Option Bytes
  unfolding members serialize_packet
  save_packet packet out =
      serialize_packet C layout (packet_type packet) saving (members C packet) out
      >>= λ (_, written). some written

  -- The packet of the type that the archive is read for, into an object that stands at `y`.
  unfoldable pub load_packet :
      (type : PacketType) → Payload C type → Bytes → Option (Packet × Bytes)
  unfolding packet_of serialize_packet
  load_packet type y input = serialize_packet C layout type loading y input >>= λ (x, rest).
      packet_of C type x >>= λ packet. some (packet, rest)

  packet_of-members :
      (packet : Packet) → packet_of C (packet_type packet) (members C packet) ≡ some packet
  unfolding packet_of members packet_type
  packet_of-members (dh_request packet) = refl
  packet_of-members (dh_response packet) = refl
  packet_of-members ping = refl
  packet_of-members pong = refl
  packet_of-members (message packet) = refl
  packet_of-members (echo packet) = refl

  members-PartsFit :
      (packet : Packet)
      → PacketFits packet
      → PartsFit C (parts (packet_type packet)) (members C packet)
  unfolding PacketFits PartsFit PartFits members parts packet_type
  members-PartsFit (dh_request packet) fits = (tt, tt)
  members-PartsFit (dh_response packet) fits = (tt, (tt, (fits, (tt, tt))))
  members-PartsFit ping fits = tt
  members-PartsFit pong fits = tt
  members-PartsFit (message packet) fits = (tt, tt)
  members-PartsFit (echo packet) fits = (tt, tt)

  parts-all_complete : (packet : Packet) → all_complete (parts (packet_type packet)) ≡ true
  unfolding all_complete complete parts packet_type
  parts-all_complete (dh_request packet) = refl
  parts-all_complete (dh_response packet) = refl
  parts-all_complete ping = refl
  parts-all_complete pong = refl
  parts-all_complete (message packet) = refl
  parts-all_complete (echo packet) = refl

  -- Every packet that the programs send to one another, with a number of rounds that is an int, is
  -- saved as some bytes behind what was written before, from which loading gives the same packet with
  -- all members that the handlers use, whatever object it is loaded into, and leaves what follows
  -- unread.
  pub save_packet-Arrives :
      (packet : Packet)
      → PacketFits packet
      → (bytes : Bytes) × ((out : Bytes) → save_packet packet out ≡ some (out ++ bytes))
        × ((y : Payload C (packet_type packet)) (rest : Bytes)
            → load_packet (packet_type packet) y (bytes ++ rest) ≡ some (packet, rest))
  unfolding save_packet load_packet
  save_packet-Arrives packet fits =
      let arrives =
        serialize_packet-Arrives C layout (packet_type packet) (members C packet)
          (members-PartsFit packet fits) (parts-all_complete packet) in
      (
        arrives.encoding,
        (λ out. rw (arrives.saves out) refl),
        λ y rest. rw (arrives.loads y rest, packet_of-members packet) refl,
      )
