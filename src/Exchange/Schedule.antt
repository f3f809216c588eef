-- ===== src/Exchange/Schedule.antt =====
-- An endless order of turns of the two ends, and what a run along it reaches.
use packet_distribution_syst.Prelude.{
  ℕ, zero, suc, ◌+◌, ◌-◌, ◌≤◌, ◌≡◌, refl, ap, ◌∙◌, List, [], ◌∷◌, ◌++◌, arith, ◌⊎◌, inl, inr,
}
use mathlib.Core.Path.{ap₂}
use packet_distribution_syst.Exchange.{Side, at_server, at_client}
use packet_distribution_syst.Exchange.Phases.{
  Phase, requested, responded, echo_to_server, echo_to_client, next, count,
}

abbrev pub Schedule : Type 0
Schedule = ℕ → Side

-- Each end has a turn again and again: the loop of its io_context does not starve it.
abbrev pub IsFair : Schedule → Type 0
IsFair schedule = (i : ℕ) (side : Side) → (d : ℕ) × (schedule (i + d) ≡ side)

-- The turns of the schedule from a number on.
unfoldable pub turns : Schedule → ℕ → ℕ → List Side
turns schedule i zero = []
turns schedule i (suc n) = schedule i ∷ turns schedule (suc i) n

-- The end at which the packet under way is.
unfoldable pub holder : Phase → Side
holder requested = at_server
holder responded = at_client
holder (echo_to_server k) = at_server
holder (echo_to_client k) = at_client

unfoldable pub advance : Phase → Phase
unfolding next holder
advance phase = next (holder phase) phase

-- A turn moves the packet, or nothing happens.
pub next_cases : (side : Side) (phase : Phase) → (holder phase ≡ side) ⊎ (next side phase ≡ phase)
unfolding next holder
next_cases at_server requested = inl refl
next_cases at_server responded = inr refl
next_cases at_server (echo_to_server k) = inl refl
next_cases at_server (echo_to_client k) = inr refl
next_cases at_client requested = inr refl
next_cases at_client responded = inl refl
next_cases at_client (echo_to_server k) = inr refl
next_cases at_client (echo_to_client k) = inl refl

suc_add : (m n : ℕ) → suc m + n ≡ suc (m + n)
suc_add m n = omega arith

pub turns_add :
    (schedule : Schedule) (i m n : ℕ)
    → turns schedule i (m + n) ≡ turns schedule i m ++ turns schedule (i + m) n
unfolding turns
turns_add schedule i zero n = ap₂ (λ j k. turns schedule j k) (omega arith) (omega arith)
turns_add schedule i (suc m) n =
    ap (λ k. turns schedule i k) (suc_add m n)
    ∙ ap (λ sides. schedule i ∷ sides) (turns_add schedule (suc i) m n)
    ∙ ap (λ j. (schedule i ∷ turns schedule (suc i) m) ++ turns schedule j n) (omega arith)

-- The phase after as many moves of the packet.
unfoldable pub phase_at : ℕ → Phase
unfolding advance
phase_at zero = requested
phase_at (suc moves) = advance (phase_at moves)

-- Past the key exchange both ends are secured, and one echo is under way.
pub data IsEchoing : Phase → ℕ → Type 0 where
  to_server : {k : ℕ} → IsEchoing (echo_to_server k) k
  to_client : {k : ℕ} → IsEchoing (echo_to_client k) k

advance-IsEchoing : {phase : Phase} {k : ℕ} → IsEchoing phase k → IsEchoing (advance phase) (suc k)
unfolding advance next holder
advance-IsEchoing to_server = to_client
advance-IsEchoing to_client = to_server

pub count-IsEchoing : {phase : Phase} {k : ℕ} → IsEchoing phase k → count phase ≡ k
unfolding count
count-IsEchoing to_server = refl
count-IsEchoing to_client = refl

pub phase_at-IsEchoing : (k : ℕ) → IsEchoing (phase_at (suc (suc k))) k
unfolding phase_at advance next holder
phase_at-IsEchoing zero = to_server
phase_at-IsEchoing (suc k) = advance-IsEchoing (phase_at-IsEchoing k)

pub count-phase_at : (moves : ℕ) → count (phase_at moves) ≤ moves - 2
unfolding phase_at advance next holder count
count-phase_at zero = omega arith
count-phase_at (suc zero) = omega arith
count-phase_at (suc (suc k)) = rw (count-IsEchoing (phase_at-IsEchoing k)) (omega arith)
