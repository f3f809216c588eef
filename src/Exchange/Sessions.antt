-- ===== src/Exchange/Sessions.antt =====
-- One server and the sessions of many clients. Every session has handlers of its own, which are given
-- that session alone.
use mathlib.Core.Path.{fun_ext, subst}
use packet_distribution_syst.Prelude.{
  ℕ, ◌<◌, ◌≤◌, ◌≡◌, ap, ◌∙◌, sym, List, [], ◌∷◌, Option, none, some, if◌then◌else◌, ◌==◌, ==_iff,
  Bool-cases, Option-cases, inl, inr, length, arith,
}
use packet_distribution_syst.Archive.{◌>>=◌}
use packet_distribution_syst.Packets.Crypto.{Crypto, IsKeyAgreement, IsKeyPair}
use packet_distribution_syst.Server.Encryption.{Draws}
use packet_distribution_syst.Exchange.{Network, Side, step, run_network, connected_network}
use packet_distribution_syst.Exchange.Phases.{requested, run_phases, network_of}
use packet_distribution_syst.Exchange.Refinement.{run_network-connected}

-- The sessions by their number.
abbrev pub Sessions : Type 0
Sessions = ℕ → Network

abbrev pub replace : Sessions → ℕ → Network → Sessions
replace sessions j n i = if i == j then n else sessions i

-- A turn of one end of one session.
abbrev pub Turn : Type 0
Turn = ℕ × Side

-- The turns of a session among those of all.
unfoldable pub turns_of : ℕ → List Turn → List Side
turns_of i [] = []
turns_of i ((j, side) ∷ turns) = let rest = turns_of i turns in if i == j then side ∷ rest else rest

turns_of_own :
    (j : ℕ) (side : Side) (turns : List Turn)
    → turns_of j ((j, side) ∷ turns) ≡ side ∷ turns_of j turns
unfolding turns_of
turns_of_own j side turns = ground arith

pub length-turns_of : (i : ℕ) (turns : List Turn) → length (turns_of i turns) ≤ length turns
unfolding turns_of
length-turns_of i [] = omega arith
length-turns_of i ((j, side) ∷ turns) = ground (arith, length-turns_of i turns)

not_stuck : {n : Network} → none ≡ some n → ⊥
not_stuck e = ground (arith, e)

module _ (C : Crypto) (signer : C.Signer) (verifier : C.Verifier) (dh : ℕ → C.DiffieHellmanHelper)
    (draws : ℕ → Draws C.DiffieHellmanHelper) where
  -- The helper and what the server draws belong to the session.
  unfoldable pub run_sessions : List Turn → Sessions → Option Sessions
  run_sessions [] sessions = some sessions
  run_sessions ((j, side) ∷ turns) sessions =
      step C signer verifier (dh j) (draws j) side (sessions j) >>= λ n.
      run_sessions turns (replace sessions j n)

  abbrev pub run_one : ℕ → List Side → Network → Option Network
  run_one i = run_network C signer verifier (dh i) (draws i)

  -- What each session does after the turn of one.
  after_turn :
      (j : ℕ) (side : Side) (turns : List Turn) (before after : Sessions) (n : Network)
      → step C signer verifier (dh j) (draws j) side (before j) ≡ some n
      → ((i : ℕ) → run_one i (turns_of i ((j, side) ∷ turns)) (before i) ≡ some (after i))
      → (i : ℕ) → run_one i (turns_of i turns) (replace before j n i) ≡ some (after i)
  unfolding turns_of run_network
  after_turn j side turns before after n stepped each i = elim (Bool-cases (i == j)) [
    | inl same ↦
        let own : run_one j (turns_of j turns) n ≡ some (after j) =
          sym (ap (λ o. o >>= λ m. run_one j (turns_of j turns) m) stepped)
          ∙ sym (ap (λ sides. run_one j sides (before j)) (turns_of_own j side turns))
          ∙ each j in
        ap (λ b. run_one i (turns_of i turns) (if b then n else before i)) same
        ∙ subst (λ k. run_one k (turns_of k turns) n ≡ some (after k)) (sym ((==_iff i j).0 same))
            own
    | inr other ↦
        ap (λ b. run_one i (turns_of i turns) (if b then n else before i)) other
        ∙ sym (
            ap (λ b. run_one i (if b then side ∷ turns_of i turns else turns_of i turns) (before i))
              other)
        ∙ each i
  ]

  -- Whatever the interleaving and the state, the sessions do not disturb one another: if each, run
  -- alone on its own turns, ends in a state, then together they end in these states.
  pub run_sessions_independent :
      (turns : List Turn) (before after : Sessions)
      → ((i : ℕ) → run_one i (turns_of i turns) (before i) ≡ some (after i))
      → run_sessions turns before ≡ some after
  unfolding run_sessions turns_of run_network
  run_sessions_independent [] before after each = ap some (fun_ext λ i. ground (arith, each i))
  run_sessions_independent ((j, side) ∷ turns) before after each =
      elim (Option-cases (step C signer verifier (dh j) (draws j) side (before j))) [
        | inl stuck ↦ absurd (
            not_stuck (
              sym (ap (λ o. o >>= λ m. run_one j (turns_of j turns) m) stuck)
              ∙ sym (ap (λ sides. run_one j sides (before j)) (turns_of_own j side turns))
              ∙ each j))
        | inr (n, stepped) ↦
            ap (λ o. o >>= λ m. run_sessions turns (replace before j m)) stepped
            ∙ run_sessions_independent turns (replace before j n) after
                (after_turn j side turns before after n stepped each)
      ]

module _ (C : Crypto) (signer : C.Signer) (verifier : C.Verifier) (agreement : IsKeyAgreement C)
    (keys : IsKeyPair C signer verifier) (dh : ℕ → C.DiffieHellmanHelper)
    (draws : ℕ → Draws C.DiffieHellmanHelper) where
  -- With matching keys, any number of clients can talk to the one server: however the turns of all
  -- sessions interleave, as long as there are fewer than 2 ^ 31, no handler throws or overflows, and
  -- each session is in the phase that its own turns lead to, with the encryption that its own key
  -- exchange agreed on.
  pub run_sessions-connected :
      (turns : List Turn)
      → length turns < 0x8000_0000
      → run_sessions C signer verifier dh draws turns
          (λ i. connected_network C signer verifier (dh i) (draws i))
        ≡ some (λ i.
          network_of C signer verifier (dh i) (draws i) (run_phases (turns_of i turns) requested))
  run_sessions-connected turns few =
      run_sessions_independent C signer verifier dh draws turns _ _ λ i.
        run_network-connected C signer verifier agreement keys (dh i) (draws i) (turns_of i turns)
          (omega (arith, few, length-turns_of i turns))
