-- ===== src/Exchange/Overflow.antt =====
-- Where a session ends: the int in an echo grows until the handler's sum overflows.
use packet_distribution_syst.Prelude.{
  ℕ, zero, suc, ◌+◌, ◌≡◌, refl, ap, ◌∙◌, sym, none, some, arith, ◌⊎◌, inl, inr, pos,
}
use packet_distribution_syst.Archive.{◌>>=◌}
use packet_distribution_syst.Text.{to_string}
use packet_distribution_syst.Packets.Crypto.{Crypto, IsKeyAgreement, IsKeyPair}
use packet_distribution_syst.Session.Echo.{process_echo, undefined, int_max}
use packet_distribution_syst.Session.Conversation.{process_echo_max}
use packet_distribution_syst.Server.Encryption.{Draws}
use packet_distribution_syst.Exchange.{
  Network, Side, at_server, at_client, step, run_network, connected_network, calls_of, perform,
  receive, server_handlers, client_handlers,
}
use packet_distribution_syst.Exchange.Phases.{Phase, network_of, secured}
use packet_distribution_syst.Exchange.Refinement.{server_turn, client_turn}
use packet_distribution_syst.Exchange.Schedule.{
  Schedule, IsFair, turns, holder, phase_at, IsEchoing, to_server, to_client, phase_at-IsEchoing,
}
use packet_distribution_syst.Exchange.Liveness.{IsSecured, echoing, run_then, moves_reached}

calls_of-process_echo_max :
    (k : ℕ)
    → k ≡ 0x7fff_ffff
    → calls_of (process_echo (record { echo_message = to_string (pos k) })) ≡ none
unfolding calls_of
calls_of-process_echo_max k e =
    ap (λ j. calls_of (process_echo (record { echo_message = to_string (pos j) }))) e
    ∙ ap calls_of process_echo_max

module _ (C : Crypto) (signer : C.Signer) (verifier : C.Verifier) (dh : C.DiffieHellmanHelper)
    (draws : Draws C.DiffieHellmanHelper) where
  -- The largest int is answered by an overflow.
  step_max :
      {phase : Phase} {k : ℕ}
      → IsEchoing phase k
      → k ≡ 0x7fff_ffff
      → step C signer verifier dh draws (holder phase) (network_of C signer verifier dh draws phase)
        ≡ none
  unfolding step receive server_handlers client_handlers perform network_of holder
  step_max {k} to_server e =
      ap (server_turn (secured C signer verifier dh draws)) (calls_of-process_echo_max k e)
  step_max {k} to_client e =
      ap (client_turn (secured C signer verifier dh draws)) (calls_of-process_echo_max k e)

  -- A turn of the other end does nothing.
  step_idle :
      {phase : Phase} {k : ℕ}
      → IsEchoing phase k
      → (side : Side)
      → (holder phase ≡ side)
        ⊎ (step C signer verifier dh draws side (network_of C signer verifier dh draws phase)
            ≡ some (network_of C signer verifier dh draws phase))
  unfolding step receive network_of holder
  step_idle to_server at_server = inl refl
  step_idle to_server at_client = inr refl
  step_idle to_client at_server = inr refl
  step_idle to_client at_client = inl refl

  abbrev network : Phase → Network
  network = network_of C signer verifier dh draws

  -- The turns of the other end are idle, and then the holder's fails.
  fails_within :
      (schedule : Schedule) {phase : Phase} {k : ℕ}
      → IsEchoing phase k
      → k ≡ 0x7fff_ffff
      → (d i : ℕ) → schedule (i + d) ≡ holder phase
      → (n : ℕ) × (run_network C signer verifier dh draws (turns schedule i n) (network phase)
          ≡ some (network phase))
        × (step C signer verifier dh draws (schedule (i + n)) (network phase) ≡ none)
  unfolding run_network turns
  fails_within schedule {phase} echoing m zero i e =
      let turn = λ (side : Side). step C signer verifier dh draws side (network phase) in
      (0, refl, ap turn e ∙ step_max echoing m)
  fails_within schedule {phase} echoing m (suc d) i e =
      let turn = λ (side : Side). step C signer verifier dh draws side (network phase) in
      elim (step_idle echoing (schedule i)) [
        | inl held ↦ (0, refl, ap turn (ap schedule (omega arith) ∙ sym held) ∙ step_max echoing m)
        | inr idle ↦
            let (n, stayed, failed) =
              fails_within schedule echoing m d (suc i) (ap schedule (omega arith) ∙ e) in
            (
              suc n,
              ap
                    (λ o. o >>= λ q.
                      run_network C signer verifier dh draws (turns schedule (suc i) n) q)
                    idle
                  ∙ stayed,
              ap (λ j. turn (schedule j)) (omega arith) ∙ failed,
            )
      ]

module _ (C : Crypto) (signer : C.Signer) (verifier : C.Verifier) (agreement : IsKeyAgreement C)
    (keys : IsKeyPair C signer verifier) (dh : C.DiffieHellmanHelper)
    (draws : Draws C.DiffieHellmanHelper) where
  overflows_at :
      (schedule : Schedule)
      → IsFair schedule
      → (k : ℕ) → k ≡ 0x7fff_ffff
      → (n : ℕ) × (m : Network) × (run_network C signer verifier dh draws
            (turns schedule 0 n)
            (connected_network C signer verifier dh draws)
          ≡ some m)
        × IsSecured C signer verifier dh draws m k
        × (step C signer verifier dh draws (schedule n) m ≡ none)
  unfolding network_of
  overflows_at schedule fair k e =
      let phase = phase_at (suc (suc k)) in
      let (n, reached) =
        moves_reached C signer verifier agreement keys dh draws schedule fair (suc (suc k))
          (omega arith) in
      let echoes = phase_at-IsEchoing k in
      let (d, turn) = fair (0 + n) (holder phase) in
      let (m, stayed, failed) =
        fails_within C signer verifier dh draws schedule echoes e d (0 + n) turn in
      (
        n + m,
        network C signer verifier dh draws phase,
        run_then C signer verifier agreement keys dh draws schedule 0 n m _ _ reached stayed,
        echoing C signer verifier agreement keys dh draws echoes,
        ap
              (λ j.
                step C signer verifier dh draws (schedule j)
                  (network C signer verifier dh draws phase))
              (omega arith)
            ∙ failed,
      )

  -- With matching keys, along every order of turns in which each end has a turn again and again, the
  -- session comes to where the one packet under way is an echo of the largest int, for which
  -- process_echo overflows, and the next turn is that of the handler, which does not return.
  pub run_network_overflows :
      (schedule : Schedule)
      → IsFair schedule
      → (n : ℕ) × (m : Network) × (run_network C signer verifier dh draws
            (turns schedule 0 n)
            (connected_network C signer verifier dh draws)
          ≡ some m)
        × IsSecured C signer verifier dh draws m 0x7fff_ffff
        × (step C signer verifier dh draws (schedule n) m ≡ none)
        × (process_echo (record { echo_message = to_string int_max }) ≡ undefined)
  run_network_overflows schedule fair =
      let (n, m, ran, secured, failed) = overflows_at schedule fair 0x7fff_ffff refl in
      (n, m, ran, secured, failed, process_echo_max)
