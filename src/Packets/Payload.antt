-- ===== src/Packets/Payload.antt =====
-- The payload of every packet that common/packets declares: its bases, in order, and then the members
-- that its macro call names as arguments of their own. In the call for NodeInformationResponse no
-- comma stands behind the body, so that `(double, cpu_load)` is a part of the body argument.
pub mod Arrival
pub mod Sent
use packet_distribution_syst.Prelude.{List, [], ◌∷◌}
use packet_distribution_syst.Archive.{Codec, Serializer}
use packet_distribution_syst.Archive.Layout.{Layout}
use packet_distribution_syst.Packets.Catalogue.{
  PacketType, dh_key_exchange_request_packet, dh_key_exchange_response_packet, ping_packet,
  pong_packet, message_packet, echo_packet, mql_version_request, mql_version_response,
  account_info_double_request, account_info_double_response, account_info_string_request,
  account_info_string_response, account_info_integer_request, account_info_integer_response,
  account_info_double_minimal_request, account_info_double_minimal_response,
  account_info_integer_minimal_request, account_info_integer_minimal_response,
  account_info_minimal_request, account_info_minimal_response, mql4_full_account_info_request,
  mql4_full_account_info_response, mql5_account_info_integer_request,
  mql5_account_info_integer_response, mql5_account_info_double_request,
  mql5_account_info_double_response, mql5_order_info_integer_request,
  mql5_order_info_integer_response, mql5_order_info_double_request, mql5_order_info_double_response,
  mql5_order_info_string_request, mql5_order_info_string_response, mql5_order_info_request,
  mql5_order_info_response, mql5_position_info_integer_request, mql5_position_info_integer_response,
  mql5_position_info_double_request, mql5_position_info_double_response,
  mql5_position_info_string_request, mql5_position_info_string_response, mql5_position_info_request,
  mql5_position_info_response, mql5_deal_info_integer_request, mql5_deal_info_integer_response,
  mql5_deal_info_double_request, mql5_deal_info_double_response, mql5_deal_info_string_request,
  mql5_deal_info_string_response, mql5_deal_info_request, mql5_deal_info_response,
  mql4_order_info_request, mql4_order_info_response, node_information_request,
  node_information_response,
}
use packet_distribution_syst.Packets.Parts.{
  Part, packet_tag, account_info_double, account_info_string, account_info_integer,
  account_info_double_minimal, account_info_integer_minimal, account_info_minimal,
  mql4_full_account_info, mql5_account_info_integer, mql5_account_info_double,
  mql5_order_info_integer, mql5_order_info_double, mql5_order_info_string, mql5_order_info,
  mql5_position_info_integer, mql5_position_info_double, mql5_position_info_string,
  mql5_position_info, mql5_deal_info_integer, mql5_deal_info_double, mql5_deal_info_string,
  mql5_deal_info, mql4_order_info, bool_member, text_member, byte_array_member, int_member,
  double_member, uint64_member, disks_member, Object, serialize_part,
}

unfoldable pub parts : PacketType → List Part
parts dh_key_exchange_request_packet = byte_array_member ∷ []
parts dh_key_exchange_response_packet =
    byte_array_member ∷ byte_array_member ∷ int_member ∷ byte_array_member ∷ []
parts ping_packet = []
parts pong_packet = []
parts message_packet = text_member ∷ []
parts echo_packet = text_member ∷ []
parts mql_version_request = packet_tag ∷ []
parts mql_version_response = packet_tag ∷ bool_member ∷ bool_member ∷ []
parts account_info_double_request = packet_tag ∷ []
parts account_info_double_response = packet_tag ∷ account_info_double ∷ []
parts account_info_string_request = packet_tag ∷ []
parts account_info_string_response = packet_tag ∷ account_info_string ∷ []
parts account_info_integer_request = packet_tag ∷ []
parts account_info_integer_response = packet_tag ∷ account_info_integer ∷ []
parts account_info_double_minimal_request = packet_tag ∷ []
parts account_info_double_minimal_response = packet_tag ∷ account_info_double_minimal ∷ []
parts account_info_integer_minimal_request = packet_tag ∷ []
parts account_info_integer_minimal_response = packet_tag ∷ account_info_integer_minimal ∷ []
parts account_info_minimal_request = packet_tag ∷ []
parts account_info_minimal_response = packet_tag ∷ account_info_minimal ∷ []
parts mql4_full_account_info_request = packet_tag ∷ []
parts mql4_full_account_info_response = packet_tag ∷ mql4_full_account_info ∷ []
parts mql5_account_info_integer_request = packet_tag ∷ []
parts mql5_account_info_integer_response = packet_tag ∷ mql5_account_info_integer ∷ []
parts mql5_account_info_double_request = packet_tag ∷ []
parts mql5_account_info_double_response = packet_tag ∷ mql5_account_info_double ∷ []
parts mql5_order_info_integer_request = packet_tag ∷ []
parts mql5_order_info_integer_response = packet_tag ∷ mql5_order_info_integer ∷ []
parts mql5_order_info_double_request = packet_tag ∷ []
parts mql5_order_info_double_response = packet_tag ∷ mql5_order_info_double ∷ []
parts mql5_order_info_string_request = packet_tag ∷ []
parts mql5_order_info_string_response = packet_tag ∷ mql5_order_info_string ∷ []
parts mql5_order_info_request = packet_tag ∷ []
parts mql5_order_info_response = packet_tag ∷ mql5_order_info ∷ []
parts mql5_position_info_integer_request = packet_tag ∷ []
parts mql5_position_info_integer_response = packet_tag ∷ mql5_position_info_integer ∷ []
parts mql5_position_info_double_request = packet_tag ∷ []
parts mql5_position_info_double_response = packet_tag ∷ mql5_position_info_double ∷ []
parts mql5_position_info_string_request = packet_tag ∷ []
parts mql5_position_info_string_response = packet_tag ∷ mql5_position_info_string ∷ []
parts mql5_position_info_request = packet_tag ∷ []
parts mql5_position_info_response = packet_tag ∷ mql5_position_info ∷ []
parts mql5_deal_info_integer_request = packet_tag ∷ []
parts mql5_deal_info_integer_response = packet_tag ∷ mql5_deal_info_integer ∷ []
parts mql5_deal_info_double_request = packet_tag ∷ []
parts mql5_deal_info_double_response = packet_tag ∷ mql5_deal_info_double ∷ []
parts mql5_deal_info_string_request = packet_tag ∷ []
parts mql5_deal_info_string_response = packet_tag ∷ mql5_deal_info_string ∷ []
parts mql5_deal_info_request = packet_tag ∷ []
parts mql5_deal_info_response = packet_tag ∷ mql5_deal_info ∷ []
parts mql4_order_info_request = packet_tag ∷ []
parts mql4_order_info_response = packet_tag ∷ mql4_order_info ∷ []
parts node_information_request = []
parts node_information_response =
    double_member ∷ double_member ∷ double_member ∷ uint64_member ∷ int_member ∷ uint64_member
    ∷ uint64_member ∷ int_member ∷ int_member ∷ disks_member ∷ []

module _ (C : Codec) where
  unfoldable pub Objects : List Part → Type 0
  unfolding Object
  Objects [] = Unit
  Objects (k ∷ ks) = Object C k × Objects ks

  abbrev pub Payload : PacketType → Type 0
  Payload packet = Objects (parts packet)

module _ (C : Codec) (layout : Layout C) where
  unfoldable pub serialize_parts : (ks : List Part) → Serializer (Objects C ks)
  unfolding Objects serialize_part
  serialize_parts [] = layout.nothing
  serialize_parts (k ∷ ks) = layout.both (serialize_part C layout k) (serialize_parts ks)

  unfoldable pub serialize_packet : (packet : PacketType) → Serializer (Payload C packet)
  unfolding serialize_parts
  serialize_packet packet = serialize_parts (parts packet)
