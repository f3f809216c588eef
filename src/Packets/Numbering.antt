-- ===== src/Packets/Numbering.antt =====
-- The numbers of the packets identify them, and a response follows its request.
pub mod Wire
use mathlib.Core.Option.{some-injective}
use packet_distribution_syst.Prelude.{
  ℕ, ◌≡◌, refl, sym, ap, ◌∙◌, ◌&&◌, Option, none, some, List, [], ◌∷◌, ◌==◌, if◌then◌else◌,
}
use packet_distribution_syst.Packets.Catalogue.{
  PacketType, subsystem_id, packet_id, dh_key_exchange_request_packet,
  dh_key_exchange_response_packet, ping_packet, pong_packet, message_packet, echo_packet,
  mql_version_request, mql_version_response, account_info_double_request,
  account_info_double_response, account_info_string_request, account_info_string_response,
  account_info_integer_request, account_info_integer_response, account_info_double_minimal_request,
  account_info_double_minimal_response, account_info_integer_minimal_request,
  account_info_integer_minimal_response, account_info_minimal_request,
  account_info_minimal_response, mql4_full_account_info_request, mql4_full_account_info_response,
  mql5_account_info_integer_request, mql5_account_info_integer_response,
  mql5_account_info_double_request, mql5_account_info_double_response,
  mql5_order_info_integer_request, mql5_order_info_integer_response, mql5_order_info_double_request,
  mql5_order_info_double_response, mql5_order_info_string_request, mql5_order_info_string_response,
  mql5_order_info_request, mql5_order_info_response, mql5_position_info_integer_request,
  mql5_position_info_integer_response, mql5_position_info_double_request,
  mql5_position_info_double_response, mql5_position_info_string_request,
  mql5_position_info_string_response, mql5_position_info_request, mql5_position_info_response,
  mql5_deal_info_integer_request, mql5_deal_info_integer_response, mql5_deal_info_double_request,
  mql5_deal_info_double_response, mql5_deal_info_string_request, mql5_deal_info_string_response,
  mql5_deal_info_request, mql5_deal_info_response, mql4_order_info_request,
  mql4_order_info_response, node_information_request, node_information_response,
}

-- Every packet, in the order of the declarations.
unfoldable pub declared : List PacketType
declared =
    dh_key_exchange_request_packet ∷ dh_key_exchange_response_packet ∷ ping_packet ∷ pong_packet
    ∷ message_packet ∷ echo_packet ∷ mql_version_request ∷ mql_version_response
    ∷ account_info_double_request ∷ account_info_double_response ∷ account_info_string_request
    ∷ account_info_string_response ∷ account_info_integer_request ∷ account_info_integer_response
    ∷ account_info_double_minimal_request ∷ account_info_double_minimal_response
    ∷ account_info_integer_minimal_request ∷ account_info_integer_minimal_response
    ∷ account_info_minimal_request ∷ account_info_minimal_response ∷ mql4_full_account_info_request
    ∷ mql4_full_account_info_response ∷ mql5_account_info_integer_request
    ∷ mql5_account_info_integer_response ∷ mql5_account_info_double_request
    ∷ mql5_account_info_double_response ∷ mql5_order_info_integer_request
    ∷ mql5_order_info_integer_response ∷ mql5_order_info_double_request
    ∷ mql5_order_info_double_response ∷ mql5_order_info_string_request
    ∷ mql5_order_info_string_response ∷ mql5_order_info_request ∷ mql5_order_info_response
    ∷ mql5_position_info_integer_request ∷ mql5_position_info_integer_response
    ∷ mql5_position_info_double_request ∷ mql5_position_info_double_response
    ∷ mql5_position_info_string_request ∷ mql5_position_info_string_response
    ∷ mql5_position_info_request ∷ mql5_position_info_response ∷ mql5_deal_info_integer_request
    ∷ mql5_deal_info_integer_response ∷ mql5_deal_info_double_request
    ∷ mql5_deal_info_double_response ∷ mql5_deal_info_string_request
    ∷ mql5_deal_info_string_response ∷ mql5_deal_info_request ∷ mql5_deal_info_response
    ∷ mql4_order_info_request ∷ mql4_order_info_response ∷ node_information_request
    ∷ node_information_response ∷ []

unfoldable pub find : ℕ → ℕ → List PacketType → Option PacketType
find subsystem number [] = none
find subsystem number (p ∷ packets) =
    let rest = find subsystem number packets in
    if subsystem_id p == subsystem && packet_id p == number then some p else rest

-- The first declared packet with the two numbers is the packet itself: no two packets share them.
pub find-subsystem_id : (p : PacketType) → find (subsystem_id p) (packet_id p) declared ≡ some p
unfolding find declared subsystem_id packet_id
find-subsystem_id dh_key_exchange_request_packet = refl
find-subsystem_id dh_key_exchange_response_packet = refl
find-subsystem_id ping_packet = refl
find-subsystem_id pong_packet = refl
find-subsystem_id message_packet = refl
find-subsystem_id echo_packet = refl
find-subsystem_id mql_version_request = refl
find-subsystem_id mql_version_response = refl
find-subsystem_id account_info_double_request = refl
find-subsystem_id account_info_double_response = refl
find-subsystem_id account_info_string_request = refl
find-subsystem_id account_info_string_response = refl
find-subsystem_id account_info_integer_request = refl
find-subsystem_id account_info_integer_response = refl
find-subsystem_id account_info_double_minimal_request = refl
find-subsystem_id account_info_double_minimal_response = refl
find-subsystem_id account_info_integer_minimal_request = refl
find-subsystem_id account_info_integer_minimal_response = refl
find-subsystem_id account_info_minimal_request = refl
find-subsystem_id account_info_minimal_response = refl
find-subsystem_id mql4_full_account_info_request = refl
find-subsystem_id mql4_full_account_info_response = refl
find-subsystem_id mql5_account_info_integer_request = refl
find-subsystem_id mql5_account_info_integer_response = refl
find-subsystem_id mql5_account_info_double_request = refl
find-subsystem_id mql5_account_info_double_response = refl
find-subsystem_id mql5_order_info_integer_request = refl
find-subsystem_id mql5_order_info_integer_response = refl
find-subsystem_id mql5_order_info_double_request = refl
find-subsystem_id mql5_order_info_double_response = refl
find-subsystem_id mql5_order_info_string_request = refl
find-subsystem_id mql5_order_info_string_response = refl
find-subsystem_id mql5_order_info_request = refl
find-subsystem_id mql5_order_info_response = refl
find-subsystem_id mql5_position_info_integer_request = refl
find-subsystem_id mql5_position_info_integer_response = refl
find-subsystem_id mql5_position_info_double_request = refl
find-subsystem_id mql5_position_info_double_response = refl
find-subsystem_id mql5_position_info_string_request = refl
find-subsystem_id mql5_position_info_string_response = refl
find-subsystem_id mql5_position_info_request = refl
find-subsystem_id mql5_position_info_response = refl
find-subsystem_id mql5_deal_info_integer_request = refl
find-subsystem_id mql5_deal_info_integer_response = refl
find-subsystem_id mql5_deal_info_double_request = refl
find-subsystem_id mql5_deal_info_double_response = refl
find-subsystem_id mql5_deal_info_string_request = refl
find-subsystem_id mql5_deal_info_string_response = refl
find-subsystem_id mql5_deal_info_request = refl
find-subsystem_id mql5_deal_info_response = refl
find-subsystem_id mql4_order_info_request = refl
find-subsystem_id mql4_order_info_response = refl
find-subsystem_id node_information_request = refl
find-subsystem_id node_information_response = refl

pub subsystem_id_injective :
    (p q : PacketType) → subsystem_id p ≡ subsystem_id q → packet_id p ≡ packet_id q → p ≡ q
subsystem_id_injective p q same_subsystem same_number = some-injective p q (
    sym (find-subsystem_id p)
    ∙ ap (λ s. find s (packet_id p) declared) same_subsystem
    ∙ ap (λ n. find (subsystem_id q) n declared) same_number
    ∙ find-subsystem_id q)
