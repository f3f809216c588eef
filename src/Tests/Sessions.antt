-- ===== src/Tests/Sessions.antt =====
-- The packet numbers, the handshake, the echo exchange and the server at concrete inputs.
use packet_distribution_syst.Session.Conversation.{converse, converse_first_echo}
use packet_distribution_syst.Text.{to_string}
use packet_distribution_syst.Prelude.{
  ℕ, zero, suc, ap, ◌∙◌, ◌+◌, ◌≡◌, refl, some, List, [], ◌∷◌, ◌++◌, pos, to_uint16, ◌==◌, arith,
}
use packet_distribution_syst.Packets.{echo, dh_request, dh_response}
use packet_distribution_syst.Packets.Crypto.{DhKeyExchangeResponsePacket}
use packet_distribution_syst.Session.{send_packet, setup_encryption}
use packet_distribution_syst.Server.Encryption.{Draws, make_response, encryption_handler_server}
use packet_distribution_syst.Server.Connections.{
  new_session, connected, failed, Event, accept, cleanup, construct, run,
}
use packet_distribution_syst.Server.Connections.Survival.{
  outlives, keep, survivors, connections-run,
}
use packet_distribution_syst.Server.Connections.Readiness.{IsReady, run-construct-IsReady}
use packet_distribution_syst.Client.Encryption.{
  first_echo, make_request, on_response, setup_encryption_for_session,
}
use packet_distribution_syst.Handshake.{agreed, handshake_agrees, altered_response_accepted}
use packet_distribution_syst.Exchange.Schedule.{Schedule, IsFair, turns}
use packet_distribution_syst.Exchange.Liveness.{IsSecured, run_network_progresses}
use packet_distribution_syst.Exchange.{
  Network, Side, at_server, at_client, connected_network, run_network,
}
use packet_distribution_syst.Tests.Instances.{
  sum_crypto, sum_crypto-IsKeyAgreement, sum_crypto-IsKeyPair,
}

abbrev pub draws : Draws sum_crypto.DiffieHellmanHelper
draws = record { dh = 30; uniform = λ n. n + 250; chi_squared = pos 2; nonce = 7 }

handshake_agrees_example :
    (encryption_handler_server sum_crypto tt draws (make_request sum_crypto 12)
      ≡ some (
          send_packet (dh_response (make_response sum_crypto tt draws))
          ∷ setup_encryption (agreed sum_crypto tt tt 12 draws)
          ∷ []))
    × (setup_encryption_for_session sum_crypto tt 12 (make_response sum_crypto tt draws)
        ≡ some (
            send_packet (dh_request (make_request sum_crypto 12))
            ∷ setup_encryption (agreed sum_crypto tt tt 12 draws)
            ∷ send_packet (echo first_echo)
            ∷ []))
handshake_agrees_example =
    handshake_agrees sum_crypto tt tt sum_crypto-IsKeyAgreement sum_crypto-IsKeyPair 12 draws

-- The rounds are set to one.
abbrev altered : DhKeyExchangeResponsePacket
altered = record {
  public_key = 30 ∷ [];
  salt = 250 ∷ 251 ∷ 252 ∷ 253 ∷ 254 ∷ 255 ∷ 0 ∷ 1 ∷ [];
  n_rounds = pos 1;
  signature = (make_response sum_crypto tt draws).signature;
}

altered_response_accepted_example :
    on_response sum_crypto tt 12 altered
    ≡ some (
        setup_encryption (record {
          key = 42 ∷ 250 ∷ 251 ∷ 252 ∷ 253 ∷ 254 ∷ 255 ∷ 0 ∷ 1 ∷ [];
          salt = 250 ∷ 251 ∷ 252 ∷ 253 ∷ 254 ∷ 255 ∷ 0 ∷ 1 ∷ [];
          n_rounds = 1;
        })
        ∷ send_packet (echo first_echo)
        ∷ [])
unfolding make_response to_uint16
altered_response_accepted_example =
    altered_response_accepted sum_crypto tt tt sum_crypto-IsKeyPair 12 draws altered refl refl

-- The first turn of the client comes before the response.
abbrev six_turns : List Side
six_turns = at_client ∷ at_server ∷ at_client ∷ at_server ∷ at_server ∷ at_client ∷ []

-- The ends alternate, the client first.
unfoldable pub alternate : Schedule
alternate zero = at_client
alternate (suc zero) = at_server
alternate (suc (suc i)) = alternate i

two_later : (i d : ℕ) → suc (suc i) + d ≡ suc (suc (i + d))
two_later i d = omega arith

alternate_back :
    (i d : ℕ) {side : Side} → alternate (i + d) ≡ side → alternate (suc (suc i) + d) ≡ side
unfolding alternate
alternate_back i d e = ap alternate (two_later i d) ∙ e

pub alternate-IsFair : IsFair alternate
unfolding alternate
alternate-IsFair zero at_server = (1, refl)
alternate-IsFair zero at_client = (0, refl)
alternate-IsFair (suc zero) at_server = (0, refl)
alternate-IsFair (suc zero) at_client = (1, refl)
alternate-IsFair (suc (suc i)) side =
    let (d, e) = alternate-IsFair i side in (d, alternate_back i d e)

run_network_progresses_example :
    (n : ℕ) × (m : Network) × (run_network sum_crypto tt tt 12 draws
        (turns alternate 0 n)
        (connected_network sum_crypto tt tt 12 draws)
      ≡ some m)
    × IsSecured sum_crypto tt tt 12 draws m 1000000
run_network_progresses_example =
    run_network_progresses sum_crypto tt tt sum_crypto-IsKeyAgreement sum_crypto-IsKeyPair 12 draws
      alternate alternate-IsFair 1000000 (omega arith)

-- Two connections, of which the first is found closed, a failed accept and a third connection.
abbrev history : List Event
history =
    accept (connected 1)
    ∷ accept (connected 2)
    ∷ cleanup (λ session. session.socket == 1)
    ∷ accept (failed 5)
    ∷ accept (connected 3)
    ∷ []

connections-run_example :
    (run construct history).connections
    ≡ keep (outlives history) construct.connections ++ survivors history
connections-run_example = connections-run construct history

kept : survivors history ≡ new_session 2 ∷ new_session 3 ∷ []
unfolding survivors keep outlives new_session
kept = refl

run-construct-IsReady_example : IsReady (run construct history)
run-construct-IsReady_example = run-construct-IsReady history

converse_first_echo_example : converse 12 first_echo.echo_message ≡ some (to_string (pos 12))
converse_first_echo_example = converse_first_echo 12
