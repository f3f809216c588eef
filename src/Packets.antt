-- ===== src/Packets.antt =====
-- common/packets: the packets of each subsystem.
pub mod Crypto
pub mod Catalogue
pub mod Numbering
pub mod Tag
pub mod Parts
pub mod Payload
use packet_distribution_syst.Archive.{Bytes}
use Crypto.{DhKeyExchangeRequestPacket, DhKeyExchangeResponsePacket}

-- common/packets/packet-network.hpp
pub record MessagePacket : Type 0 where
  pub message : Bytes

pub record EchoPacket : Type 0 where
  pub echo_message : Bytes

-- The packets that the server and the test client send to one another.
pub data Packet : Type 0 where
  dh_request : DhKeyExchangeRequestPacket → Packet
  dh_response : DhKeyExchangeResponsePacket → Packet
  ping pong : Packet
  message : MessagePacket → Packet
  echo : EchoPacket → Packet
