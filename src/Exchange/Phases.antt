-- ===== src/Exchange/Phases.antt =====
-- The exchange as a machine of five phases.
use packet_distribution_syst.Prelude.{ℕ, suc, none, some, List, [], ◌∷◌, false, pos}
use packet_distribution_syst.Text.{to_string}
use packet_distribution_syst.Packets.{Packet, dh_response, echo}
use packet_distribution_syst.Packets.Crypto.{Crypto, DhKeyExchangeResponsePacket, Encryption}
use packet_distribution_syst.Server.Encryption.{Draws, make_response}
use packet_distribution_syst.Handshake.{agreed}
use packet_distribution_syst.Exchange.{End, Network, Side, at_server, at_client, connected_network}

-- Where the one packet under way is, and the number that an echo carries.
pub data Phase : Type 0 where
  requested responded : Phase
  echo_to_server echo_to_client : ℕ → Phase

-- What a turn of one end does to the phase.
unfoldable pub next : Side → Phase → Phase
next at_server requested = responded
next at_client responded = echo_to_server 0
next at_server (echo_to_server k) = echo_to_client (suc k)
next at_client (echo_to_client k) = echo_to_server (suc k)
next _ phase = phase

unfoldable pub run_phases : List Side → Phase → Phase
unfolding next
run_phases [] phase = phase
run_phases (side ∷ sides) phase = run_phases sides (next side phase)

-- The number in the echo.
unfoldable pub count : Phase → ℕ
count (echo_to_server k) = k
count (echo_to_client k) = k
count _ = 0

abbrev pub numbered_echo : ℕ → Packet
numbered_echo k = echo (record { echo_message = to_string (pos k) })

module _ (C : Crypto) (signer : C.Signer) (verifier : C.Verifier) (dh : C.DiffieHellmanHelper)
    (draws : Draws C.DiffieHellmanHelper) where
  abbrev pub encryption : Encryption
  encryption = agreed C signer verifier dh draws

  abbrev pub response : DhKeyExchangeResponsePacket
  response = make_response C signer draws

  -- The network in each phase.
  unfoldable pub network_of : Phase → Network
  network_of requested = connected_network C signer verifier dh draws
  network_of responded = record {
    server = record { encryption = some encryption; destroyed = false; inbox = [] };
    client = record { encryption = none; destroyed = false; inbox = dh_response response ∷ [] };
  }
  network_of (echo_to_server k) = record {
    server = record {
      encryption = some encryption;
      destroyed = false;
      inbox = numbered_echo k ∷ [];
    };
    client = record { encryption = some encryption; destroyed = false; inbox = [] };
  }
  network_of (echo_to_client k) = record {
    server = record { encryption = some encryption; destroyed = false; inbox = [] };
    client = record {
      encryption = some encryption;
      destroyed = false;
      inbox = numbered_echo k ∷ [];
    };
  }

  abbrev pub secured : End
  secured = record { encryption = some encryption; destroyed = false; inbox = [] }
