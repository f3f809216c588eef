-- ===== src/Exchange/Liveness.antt =====
-- A session makes progress, however the turns of its ends fall.
use packet_distribution_syst.Prelude.{
  ℕ, zero, suc, ◌+◌, ◌<◌, ◌≡◌, refl, ap, ◌∙◌, sym, List, [], ◌∷◌, ◌++◌, Option, none, some, arith,
  inl, inr,
}
use packet_distribution_syst.Archive.{◌>>=◌}
use packet_distribution_syst.Packets.Crypto.{Crypto, IsKeyAgreement, IsKeyPair}
use packet_distribution_syst.Server.Encryption.{Draws}
use packet_distribution_syst.Handshake.{agreed}
use packet_distribution_syst.Exchange.{Side, Network, step, run_network, connected_network}
use packet_distribution_syst.Exchange.Phases.{
  Phase, requested, next, count, network_of, numbered_echo,
}
use packet_distribution_syst.Exchange.Refinement.{step-next}
use packet_distribution_syst.Exchange.Schedule.{
  Schedule, IsFair, turns, turns_add, holder, advance, next_cases, phase_at, count-phase_at,
  IsEchoing, to_server, to_client, phase_at-IsEchoing,
}

module _ (C : Crypto) (signer : C.Signer) (verifier : C.Verifier) (dh : C.DiffieHellmanHelper)
    (draws : Draws C.DiffieHellmanHelper) where
  -- Both ends have the encryption agreed on, and the echo of number k is on its way.
  abbrev pub IsSecured : Network → ℕ → Type 0
  IsSecured m k =
      (m.server.encryption ≡ some (agreed C signer verifier dh draws))
      × (m.client.encryption ≡ some (agreed C signer verifier dh draws))
      × (m.server.inbox ++ m.client.inbox ≡ numbered_echo k ∷ [])

module _ (C : Crypto) (signer : C.Signer) (verifier : C.Verifier) (agreement : IsKeyAgreement C)
    (keys : IsKeyPair C signer verifier) (dh : C.DiffieHellmanHelper)
    (draws : Draws C.DiffieHellmanHelper) where
  abbrev pub run : List Side → Network → Option Network
  run = run_network C signer verifier dh draws

  abbrev pub network : Phase → Network
  network = network_of C signer verifier dh draws

  run-turn :
      (side : Side) (sides : List Side) (phase : Phase)
      → count phase < 0x7fff_ffff
      → run (side ∷ sides) (network phase) ≡ run sides (network (next side phase))
  unfolding run_network
  run-turn side sides phase h =
      ap (λ o. o >>= λ m. run sides m)
        (step-next C signer verifier agreement keys dh draws side phase h)

  run-append :
      (sides more : List Side) (n : Network)
      → run (sides ++ more) n ≡ (run sides n >>= λ m. run more m)
  unfolding run_network
  run-append [] more n = refl
  run-append (side ∷ sides) more n =
      elim (step C signer verifier dh draws side n)
        as (λ o.
          (o >>= λ m. run (sides ++ more) m) ≡ ((o >>= λ m. run sides m) >>= λ m. run more m)) [
            | none ↦ refl
            | some m ↦ run-append sides more m
          ]

  -- The packet moves within the turns up to one of its holder's.
  moves_within :
      (schedule : Schedule) (phase : Phase)
      → count phase < 0x7fff_ffff
      → (d i : ℕ) → schedule (i + d) ≡ holder phase
      → (n : ℕ) × (run (turns schedule i n) (network phase) ≡ some (network (advance phase)))
  unfolding turns advance run_network
  moves_within schedule phase h zero i e = (
    1,
    run-turn (schedule i) [] phase h
        ∙ ap (λ side. some (network (next side phase))) (ap schedule (omega arith) ∙ e),
  )
  moves_within schedule phase h (suc d) i e = elim (next_cases (schedule i) phase) [
    | inl held ↦ (
      1,
      run-turn (schedule i) [] phase h ∙ ap (λ side. some (network (next side phase))) (sym held),
    )
    | inr idle ↦
        let (n, moved) = moves_within schedule phase h d (suc i) (ap schedule (omega arith) ∙ e) in
        (
          suc n,
          run-turn (schedule i) (turns schedule (suc i) n) phase h
              ∙ ap (λ p. run (turns schedule (suc i) n) (network p)) idle
              ∙ moved,
        )
  ]

  pub run_then :
      (schedule : Schedule) (i n m : ℕ) (a b : Network) {o : Option Network}
      → run (turns schedule i n) a ≡ some b
      → run (turns schedule (i + n) m) b ≡ o
      → run (turns schedule i (n + m)) a ≡ o
  run_then schedule i n m a b first second =
      ap (λ sides. run sides a) (turns_add schedule i n m)
      ∙ run-append (turns schedule i n) (turns schedule (i + n) m) a
      ∙ ap (λ o. o >>= λ c. run (turns schedule (i + n) m) c) first
      ∙ second

  pub moves_reached :
      (schedule : Schedule)
      → IsFair schedule
      → (moves : ℕ) → moves < 0x8000_0002
      → (n : ℕ) × (run (turns schedule 0 n) (network requested) ≡ some (network (phase_at moves)))
  unfolding phase_at turns run_network
  moves_reached schedule fair zero h = (0, refl)
  moves_reached schedule fair (suc moves) h =
      let (n, reached) = moves_reached schedule fair moves (omega (arith, h)) in
      let (d, e) = fair (0 + n) (holder (phase_at moves)) in
      let (m, moved) =
        moves_within schedule (phase_at moves) (omega (arith, h, count-phase_at moves)) d (0 + n)
          e in
      (n + m, run_then schedule 0 n m (network requested) (network (phase_at moves)) reached moved)

  -- In each such phase both ends are secured and one echo is under way.
  pub echoing :
      {phase : Phase} {k : ℕ}
      → IsEchoing phase k
      → IsSecured C signer verifier dh draws (network phase) k
  unfolding network_of
  echoing to_server = (refl, refl, refl)
  echoing to_client = (refl, refl, refl)

  -- With matching keys, along every order of turns in which each end has a turn again and again, and
  -- for every k below 2 ^ 31, some number of turns leaves both ends with the encryption agreed on and
  -- the echo of number k as the one packet under way; no handler throws or overflows on the way.
  pub run_network_progresses :
      (schedule : Schedule)
      → IsFair schedule
      → (k : ℕ) → k < 0x8000_0000
      → (n : ℕ) × (m : Network) × (run_network C signer verifier dh draws
            (turns schedule 0 n)
            (connected_network C signer verifier dh draws)
          ≡ some m)
        × IsSecured C signer verifier dh draws m k
  unfolding network_of
  run_network_progresses schedule fair k h =
      let (n, reached) = moves_reached schedule fair (suc (suc k)) (omega arith) in
      (n, network (phase_at (suc (suc k))), reached, echoing (phase_at-IsEchoing k))
