-- ===== src/Exchange.antt =====
-- A session between central_server/main.cpp and client_test/main.cpp: the handlers that each end
-- registers, run on the packets as they come. Packets arrive in the order in which they are sent, as
-- on a TCP connection, and each end handles one at a time.
pub mod Phases
pub mod Refinement
pub mod Schedule
pub mod Liveness
pub mod Overflow
pub mod Sessions
pub mod Peer
use packet_distribution_syst.Prelude.{Option, none, some, List, [], ◌∷◌, ◌++◌, Bool, true, false}
use packet_distribution_syst.Archive.{◌>>=◌}
use packet_distribution_syst.Packets.{Packet, dh_request, dh_response, echo}
use packet_distribution_syst.Packets.Crypto.{Crypto, DhKeyExchangeResponsePacket, Encryption}
use packet_distribution_syst.Session.{Call, send_packet, setup_encryption, destroy}
use packet_distribution_syst.Session.Echo.{Outcome, returns, process_echo}
use packet_distribution_syst.Server.Encryption.{Draws, encryption_handler_server}
use packet_distribution_syst.Client.Encryption.{make_request, on_response}

-- One end: its encryption, whether its session is destroyed, and the packets on the way to it.
pub record End : Type 0 where
  pub encryption : Option Encryption
  pub destroyed : Bool
  pub inbox : List Packet

pub record Network : Type 0 where
  pub server : End
  pub client : End

-- The calls of a handler at one end, with the packets on the way to the other.
unfoldable pub perform : List Call → End → List Packet → End × List Packet
perform [] self outbox = (self, outbox)
perform (send_packet packet ∷ calls) self outbox = perform calls self (outbox ++ (packet ∷ []))
perform (setup_encryption encryption ∷ calls) self outbox =
    perform calls (record self { encryption = some encryption }) outbox
perform (destroy ∷ calls) self outbox = perform calls (record self { destroyed = true }) outbox

-- The calls of a handler that returns; none for an exception or an overflow.
unfoldable pub calls_of : Outcome → Option (List Call)
calls_of (returns calls) = some calls
calls_of _ = none

-- The client's coroutine waits for one response.
unfoldable pub await_response : Option Encryption → Option (List Call) → Option (List Call)
await_response none calls = calls
await_response (some encryption) calls = some []

module _ (C : Crypto) where
  -- The handlers that the server registers.
  unfoldable pub server_handlers :
      C.Signer → Draws C.DiffieHellmanHelper → End → Packet → Option (List Call)
  unfolding calls_of
  server_handlers signer draws self (dh_request request) =
      encryption_handler_server C signer draws request
  server_handlers signer draws self (echo packet) = calls_of (process_echo packet)
  server_handlers signer draws self _ = some []

  -- The client's echo handler, and its coroutine.
  unfoldable pub client_handlers :
      C.Verifier → C.DiffieHellmanHelper → End → Packet → Option (List Call)
  unfolding calls_of await_response
  client_handlers verifier dh self (dh_response response) =
      await_response self.encryption (on_response C verifier dh response)
  client_handlers verifier dh self (echo packet) = calls_of (process_echo packet)
  client_handlers verifier dh self _ = some []

-- An end takes the next packet, if one is there.
unfoldable pub receive :
    (End → Packet → Option (List Call))
    → End
    → List Packet
    → List Packet
    → Option (End × List Packet)
unfolding perform
receive handlers self [] outbox = some (self, outbox)
receive handlers self (packet ∷ inbox) outbox =
    handlers self packet >>= λ calls. some (perform calls (record self { inbox = inbox }) outbox)

pub data Side : Type 0 where
  at_server at_client : Side

module _ (C : Crypto) (signer : C.Signer) (verifier : C.Verifier) (dh : C.DiffieHellmanHelper)
    (draws : Draws C.DiffieHellmanHelper) where
  unfoldable pub step : Side → Network → Option Network
  unfolding receive server_handlers client_handlers
  step at_server n =
      receive (server_handlers C signer draws) n.server n.server.inbox n.client.inbox
      >>= λ (server, outbox).
          some (record { server = server; client = record (n.client) { inbox = outbox } })
  step at_client n =
      receive (client_handlers C verifier dh) n.client n.client.inbox n.server.inbox
      >>= λ (client, outbox).
          some (record { server = record (n.server) { inbox = outbox }; client = client })

  -- The coroutine has sent its request.
  unfoldable pub connected_network : Network
  connected_network = record {
    server = record {
      encryption = none;
      destroyed = false;
      inbox = dh_request (make_request C dh) ∷ [];
    };
    client = record { encryption = none; destroyed = false; inbox = [] };
  }

  -- The ends take turns in any order.
  unfoldable pub run_network : List Side → Network → Option Network
  unfolding step
  run_network [] n = some n
  run_network (side ∷ sides) n = step side n >>= λ m. run_network sides m
