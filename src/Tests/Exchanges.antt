-- ===== src/Tests/Exchanges.antt =====
-- Sessions of the server with many clients, with any peer, and to their end, at concrete inputs.
use packet_distribution_syst.Prelude.{◌==◌, refl, ℕ, ◌≡◌, none, some, List, [], ◌∷◌, false}
use packet_distribution_syst.Archive.{◌>>=◌}
use packet_distribution_syst.Packets.{echo, dh_request, ping}
use packet_distribution_syst.Client.Encryption.{make_request}
use packet_distribution_syst.Exchange.{
  Network, step, End, at_server, at_client, connected_network, run_network,
}
use packet_distribution_syst.Exchange.Schedule.{turns}
use packet_distribution_syst.Text.{to_string}
use packet_distribution_syst.Session.Echo.{process_echo, undefined, int_max}
use packet_distribution_syst.Exchange.Liveness.{IsSecured}
use packet_distribution_syst.Exchange.Overflow.{run_network_overflows}
use packet_distribution_syst.Exchange.Sessions.{Turn}
use packet_distribution_syst.Exchange.Peer.{Input, serve, all_owed, keyed, serve-all_owed}
use packet_distribution_syst.Server.Connections.{failed, connected, new_session}
use packet_distribution_syst.Server.Connections.Survival.{survivors, keep, outlives}
use packet_distribution_syst.System.{Event, accepts, turn, cleans, server_events}
use packet_distribution_syst.Tests.Instances.{
  sum_crypto, sum_crypto-IsKeyAgreement, sum_crypto-IsKeyPair,
}
use packet_distribution_syst.Tests.Sessions.{draws, alternate, alternate-IsFair}

run_network_overflows_example :
    (n : ℕ) × (m : Network) × (run_network sum_crypto tt tt 12 draws
        (turns alternate 0 n)
        (connected_network sum_crypto tt tt 12 draws)
      ≡ some m)
    × IsSecured sum_crypto tt tt 12 draws m 0x7fff_ffff
    × (step sum_crypto tt tt 12 draws (alternate n) m ≡ none)
    × (process_echo (record { echo_message = to_string int_max }) ≡ undefined)
run_network_overflows_example =
    run_network_overflows sum_crypto tt tt sum_crypto-IsKeyAgreement sum_crypto-IsKeyPair 12 draws
      alternate alternate-IsFair

-- The client of the session of number i draws the key i.
abbrev helper : ℕ → ℕ
helper i = i

-- The turns of two sessions, mixed.
abbrev mixed : List Turn
mixed = (0, at_server) ∷ (1, at_server) ∷ (1, at_client) ∷ (0, at_client) ∷ (1, at_server) ∷ []

abbrev fresh : End
fresh = record { encryption = none; destroyed = false; inbox = [] }

-- An echo of -5 before the key exchange, and a ping.
abbrev inputs : List (Input sum_crypto tt)
inputs =
    (echo (record { echo_message = b'-' ∷ b'5' ∷ [] }), draws)
    ∷ (ping, draws)
    ∷ (dh_request (make_request sum_crypto 12), draws)
    ∷ []

serve-all_owed_example : serve sum_crypto tt inputs fresh ≡ (
    all_owed sum_crypto tt inputs >>= λ packets.
    some (record fresh { encryption = keyed sum_crypto tt inputs fresh.encryption }, packets))
serve-all_owed_example = serve-all_owed sum_crypto tt inputs fresh

-- Three connections, an accept that fails, and a round of the cleanup between two turns that finds
-- session 0 closed.
abbrev day : List Event
day =
    accepts (connected 0)
    ∷ accepts (connected 1)
    ∷ turn 1 at_server
    ∷ cleans (λ session. session.socket == 0)
    ∷ turn 1 at_client
    ∷ accepts (failed 5)
    ∷ accepts (connected 2)
    ∷ []

held : survivors (server_events day) ≡ new_session 1 ∷ new_session 2 ∷ []
unfolding survivors server_events keep outlives new_session
held = refl
