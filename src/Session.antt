-- ===== src/Session.antt =====
-- What a handler does to the mal-packet-weaver session that it is given: its calls, in order.
pub mod Echo
pub mod Conversation
use packet_distribution_syst.Packets.{Packet}
use packet_distribution_syst.Packets.Crypto.{Encryption}

pub data Call : Type 0 where
  send_packet : Packet → Call
  setup_encryption : Encryption → Call
  destroy : Call
