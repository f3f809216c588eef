-- ===== src/Exchange/Refinement.antt =====
-- The network follows the machine of phases.
use packet_distribution_syst.Prelude.{
  ℕ, suc, ◌+◌, ◌<◌, ◌≤◌, ◌≡◌, refl, ap, ◌∙◌, none, some, Option, List, [], ◌∷◌, false, pos, length,
  arith, pos_add,
}
use packet_distribution_syst.Text.{to_string}
use packet_distribution_syst.Packets.{echo}
use packet_distribution_syst.Packets.Crypto.{Crypto, IsKeyAgreement, IsKeyPair}
use packet_distribution_syst.Archive.{◌>>=◌}
use packet_distribution_syst.Session.{Call, send_packet, setup_encryption}
use packet_distribution_syst.Session.Echo.{process_echo}
use packet_distribution_syst.Session.Conversation.{process_echo-to_string}
use packet_distribution_syst.Server.Encryption.{Draws}
use packet_distribution_syst.Client.Encryption.{
  first_echo, on_response, setup_encryption_for_session,
}
use packet_distribution_syst.Handshake.{handshake_agrees}
use packet_distribution_syst.Exchange.{
  End, Network, perform, calls_of, await_response, server_handlers, client_handlers, receive, Side,
  at_server, at_client, step, connected_network, run_network,
}
use packet_distribution_syst.Exchange.Phases.{
  Phase, requested, responded, echo_to_server, echo_to_client, next, run_phases, count,
  numbered_echo, encryption, response, network_of, secured,
}

tail : Option (List Call) → Option (List Call)
tail (some (call ∷ calls)) = some calls
tail _ = none

calls_of-process_echo :
    (k : ℕ)
    → k < 0x7fff_ffff
    → calls_of (process_echo (record { echo_message = to_string (pos k) }))
      ≡ some (send_packet (numbered_echo (suc k)) ∷ [])
unfolding calls_of
calls_of-process_echo k h =
    ap calls_of (process_echo-to_string (pos k) (omega arith) (ground arith))
    ∙ ap (λ z. some (send_packet (echo (record { echo_message = to_string z })) ∷ []))
        (pos_add k 1 ∙ ap pos (omega arith))

first_echo_numbered : echo first_echo ≡ numbered_echo 0
unfolding to_string
first_echo_numbered = refl

pub count_next : (side : Side) (phase : Phase) → count (next side phase) ≤ suc (count phase)
unfolding count next
count_next at_server requested = omega arith
count_next at_client requested = omega arith
count_next at_server responded = omega arith
count_next at_client responded = omega arith
count_next at_server (echo_to_server k) = omega arith
count_next at_client (echo_to_server k) = omega arith
count_next at_server (echo_to_client k) = omega arith
count_next at_client (echo_to_client k) = omega arith

tail-cons : (o : Option (List Call)) (call : Call) → o ≡ tail (o >>= λ calls. some (call ∷ calls))
unfolding tail
tail-cons none call = refl
tail-cons (some calls) call = refl

abbrev server_does : Option (List Call) → End → End → Option Network
server_does o self other =
    (o >>= λ calls. some (perform calls self other.inbox)) >>= λ (server, outbox).
    some (record { server = server; client = record other { inbox = outbox } })

abbrev client_does : Option (List Call) → End → End → Option Network
client_does o self other =
    (o >>= λ calls. some (perform calls self other.inbox)) >>= λ (client, outbox).
    some (record { server = record other { inbox = outbox }; client = client })

-- The turn of an end with an encryption, by what its handler calls.
abbrev pub server_turn : End → Option (List Call) → Option Network
server_turn secured o = (o >>= λ calls. some (perform calls secured [])) >>= λ (server, outbox).
    some (record { server = server; client = record secured { inbox = outbox } })

abbrev pub client_turn : End → Option (List Call) → Option Network
client_turn secured o = (o >>= λ calls. some (perform calls secured [])) >>= λ (client, outbox).
    some (record { server = record secured { inbox = outbox }; client = client })

abbrev fresh : End
fresh = record { encryption = none; destroyed = false; inbox = [] }

module _ (C : Crypto) (signer : C.Signer) (verifier : C.Verifier) (agreement : IsKeyAgreement C)
    (keys : IsKeyPair C signer verifier) (dh : C.DiffieHellmanHelper)
    (draws : Draws C.DiffieHellmanHelper) where
  on_response_agreed :
      on_response C verifier dh (response C signer verifier dh draws)
      ≡ some (
          setup_encryption (encryption C signer verifier dh draws)
          ∷ send_packet (numbered_echo 0)
          ∷ [])
  unfolding setup_encryption_for_session tail
  on_response_agreed =
      tail-cons (on_response C verifier dh (response C signer verifier dh draws)) _
      ∙ ap tail (handshake_agrees C signer verifier agreement keys dh draws).1
      ∙ ap
          (λ packet.
            some
              (setup_encryption (encryption C signer verifier dh draws) ∷ send_packet packet ∷ []))
          first_echo_numbered

  pub step-next :
      (side : Side) (phase : Phase)
      → count phase < 0x7fff_ffff
      → step C signer verifier dh draws side (network_of C signer verifier dh draws phase)
        ≡ some (network_of C signer verifier dh draws (next side phase))
  unfolding step receive server_handlers client_handlers perform await_response network_of next
      count connected_network
  step-next at_server requested h =
      ap (λ calls. server_does calls fresh fresh)
        (handshake_agrees C signer verifier agreement keys dh draws).0
  step-next at_client requested h = refl
  step-next at_server responded h = refl
  step-next at_client responded h =
      ap (λ calls. client_does calls fresh (secured C signer verifier dh draws)) on_response_agreed
  step-next at_server (echo_to_server k) h =
      ap (server_turn (secured C signer verifier dh draws)) (calls_of-process_echo k h)
  step-next at_client (echo_to_server k) h = refl
  step-next at_server (echo_to_client k) h = refl
  step-next at_client (echo_to_client k) h =
      ap (client_turn (secured C signer verifier dh draws)) (calls_of-process_echo k h)

  run_network-run_phases :
      (sides : List Side) (phase : Phase)
      → count phase + length sides < 0x8000_0000
      → run_network C signer verifier dh draws sides (network_of C signer verifier dh draws phase)
        ≡ some (network_of C signer verifier dh draws (run_phases sides phase))
  unfolding run_network run_phases
  run_network-run_phases [] phase h = refl
  run_network-run_phases (side ∷ sides) phase h =
      ap (λ o. o >>= λ m. run_network C signer verifier dh draws sides m)
        (step-next side phase (omega arith))
      ∙ run_network-run_phases sides (next side phase) (omega (arith, count_next side phase))

  -- With matching keys, however the ends take turns, for fewer than 2 ^ 31 turns, no handler throws
  -- or overflows, and the network is what its phase says: first neither end has an encryption, after
  -- the server's turn it alone has the one agreed on, and from the client's turn on both ends have
  -- it; no session is destroyed, and one packet is under way, the echoes counting from 0.
  pub run_network-connected :
      (sides : List Side)
      → length sides < 0x8000_0000
      → run_network C signer verifier dh draws sides (connected_network C signer verifier dh draws)
        ≡ some (network_of C signer verifier dh draws (run_phases sides requested))
  unfolding network_of count
  run_network-connected sides h = run_network-run_phases sides requested (omega arith)
