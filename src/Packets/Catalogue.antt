-- ===== src/Packets/Catalogue.antt =====
-- The packets that common/packets declares, with the subsystem, the number and the time to live, in
-- seconds, that each macro call gives.
use packet_distribution_syst.Prelude.{ℕ}

pub data PacketType : Type 0 where
  dh_key_exchange_request_packet dh_key_exchange_response_packet ping_packet : PacketType
  pong_packet message_packet echo_packet mql_version_request : PacketType
  mql_version_response account_info_double_request account_info_double_response : PacketType
  account_info_string_request account_info_string_response : PacketType
  account_info_integer_request account_info_integer_response : PacketType
  account_info_double_minimal_request account_info_double_minimal_response : PacketType
  account_info_integer_minimal_request account_info_integer_minimal_response : PacketType
  account_info_minimal_request account_info_minimal_response : PacketType
  mql4_full_account_info_request mql4_full_account_info_response : PacketType
  mql5_account_info_integer_request mql5_account_info_integer_response : PacketType
  mql5_account_info_double_request mql5_account_info_double_response : PacketType
  mql5_order_info_integer_request mql5_order_info_integer_response : PacketType
  mql5_order_info_double_request mql5_order_info_double_response : PacketType
  mql5_order_info_string_request mql5_order_info_string_response : PacketType
  mql5_order_info_request mql5_order_info_response : PacketType
  mql5_position_info_integer_request mql5_position_info_integer_response : PacketType
  mql5_position_info_double_request mql5_position_info_double_response : PacketType
  mql5_position_info_string_request mql5_position_info_string_response : PacketType
  mql5_position_info_request mql5_position_info_response : PacketType
  mql5_deal_info_integer_request mql5_deal_info_integer_response : PacketType
  mql5_deal_info_double_request mql5_deal_info_double_response : PacketType
  mql5_deal_info_string_request mql5_deal_info_string_response : PacketType
  mql5_deal_info_request mql5_deal_info_response mql4_order_info_request : PacketType
  mql4_order_info_response node_information_request node_information_response : PacketType

-- common/packets/subsystems.hpp
abbrev pub packet_subsystem_crypto : ℕ
packet_subsystem_crypto = 0x0001

abbrev pub packet_subsystem_network : ℕ
packet_subsystem_network = 0x0002

abbrev pub packet_subsystem_trade_info : ℕ
packet_subsystem_trade_info = 0x0003

abbrev pub packet_subsystem_node_info : ℕ
packet_subsystem_node_info = 0x0004

unfoldable pub subsystem_id : PacketType → ℕ
subsystem_id dh_key_exchange_request_packet = packet_subsystem_crypto
subsystem_id dh_key_exchange_response_packet = packet_subsystem_crypto
subsystem_id ping_packet = packet_subsystem_network
subsystem_id pong_packet = packet_subsystem_network
subsystem_id message_packet = packet_subsystem_network
subsystem_id echo_packet = packet_subsystem_network
subsystem_id node_information_request = packet_subsystem_node_info
subsystem_id node_information_response = packet_subsystem_node_info
subsystem_id _ = packet_subsystem_trade_info

unfoldable pub packet_id : PacketType → ℕ
packet_id dh_key_exchange_request_packet = 0
packet_id dh_key_exchange_response_packet = 1
packet_id ping_packet = 0
packet_id pong_packet = 1
packet_id message_packet = 2
packet_id echo_packet = 3
packet_id mql_version_request = 0
packet_id mql_version_response = 1
packet_id account_info_double_request = 2
packet_id account_info_double_response = 3
packet_id account_info_string_request = 4
packet_id account_info_string_response = 5
packet_id account_info_integer_request = 6
packet_id account_info_integer_response = 7
packet_id account_info_double_minimal_request = 8
packet_id account_info_double_minimal_response = 9
packet_id account_info_integer_minimal_request = 10
packet_id account_info_integer_minimal_response = 11
packet_id account_info_minimal_request = 12
packet_id account_info_minimal_response = 13
packet_id mql4_full_account_info_request = 14
packet_id mql4_full_account_info_response = 15
packet_id mql5_account_info_integer_request = 16
packet_id mql5_account_info_integer_response = 17
packet_id mql5_account_info_double_request = 18
packet_id mql5_account_info_double_response = 19
packet_id mql5_order_info_integer_request = 20
packet_id mql5_order_info_integer_response = 21
packet_id mql5_order_info_double_request = 22
packet_id mql5_order_info_double_response = 23
packet_id mql5_order_info_string_request = 24
packet_id mql5_order_info_string_response = 25
packet_id mql5_order_info_request = 26
packet_id mql5_order_info_response = 27
packet_id mql5_position_info_integer_request = 28
packet_id mql5_position_info_integer_response = 29
packet_id mql5_position_info_double_request = 30
packet_id mql5_position_info_double_response = 31
packet_id mql5_position_info_string_request = 32
packet_id mql5_position_info_string_response = 33
packet_id mql5_position_info_request = 34
packet_id mql5_position_info_response = 35
packet_id mql5_deal_info_integer_request = 36
packet_id mql5_deal_info_integer_response = 37
packet_id mql5_deal_info_double_request = 38
packet_id mql5_deal_info_double_response = 39
packet_id mql5_deal_info_string_request = 40
packet_id mql5_deal_info_string_response = 41
packet_id mql5_deal_info_request = 42
packet_id mql5_deal_info_response = 43
packet_id mql4_order_info_request = 44
packet_id mql4_order_info_response = 45
packet_id node_information_request = 0
packet_id node_information_response = 1

unfoldable pub time_to_live : PacketType → ℕ
time_to_live dh_key_exchange_request_packet = 120
time_to_live dh_key_exchange_response_packet = 120
time_to_live ping_packet = 120
time_to_live pong_packet = 120
time_to_live message_packet = 120
time_to_live echo_packet = 120
time_to_live node_information_request = 120
time_to_live node_information_response = 120
time_to_live _ = 60
