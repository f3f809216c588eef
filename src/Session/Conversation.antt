-- ===== src/Session/Conversation.antt =====
-- The echo exchange: each end answers the other's echo by `process_echo`, starting from the first
-- echo of the client.
use packet_distribution_syst.Prelude.{
  ℕ, zero, suc, ◌+◌, ◌<◌, ◌≡◌, ◌≢◌, refl, ap, ◌∙◌, Option, none, some, List, [], ◌∷◌, ℤ, pos, ◌+ℤ◌,
  IsInt32, ltb, ◌==◌, if◌then◌else◌, arith, Bool-cases, inl, inr,
}
use packet_distribution_syst.Archive.{Bytes, ◌>>=◌}
use packet_distribution_syst.Text.{to_string}
use packet_distribution_syst.Text.Decimal.{stoi-to_string}
use packet_distribution_syst.Packets.{echo}
use packet_distribution_syst.Session.{Call, send_packet}
use packet_distribution_syst.Client.Encryption.{first_echo}
use packet_distribution_syst.Session.Echo.{Outcome, returns, undefined, int_max, process_echo}

-- The echo that goes back, if the handler gets that far.
sent : List Call → Option Bytes
sent (send_packet (echo packet) ∷ []) = some packet.echo_message
sent _ = none

answer : Outcome → Option Bytes
unfolding sent
answer (returns calls) = sent calls
answer _ = none

-- The message under way after `n` more answers.
pub converse : ℕ → Bytes → Option Bytes
unfolding answer
converse zero text = some text
converse (suc n) text =
    answer (process_echo (record { echo_message = text })) >>= λ next. converse n next

-- An int in an echo, unless it is the largest, comes back increased by one.
pub process_echo-to_string :
    (z : ℤ)
    → IsInt32 z
    → z ≢ int_max
    → process_echo (record { echo_message = to_string z })
      ≡ returns (send_packet (echo (record { echo_message = to_string (z +ℤ pos 1) })) ∷ [])
unfolding process_echo
process_echo-to_string z fits more = ground (arith, stoi-to_string z fits)

-- At the largest int the handler's sum overflows.
pub process_echo_max : process_echo (record { echo_message = to_string int_max }) ≡ undefined
unfolding process_echo
process_echo_max = ground (arith, stoi-to_string int_max (omega arith))

pos_next : (k : ℕ) → pos k +ℤ pos 1 ≡ pos (suc k)
unfolding ◌+ℤ◌
pos_next k = ground arith

answer-process_echo :
    (k : ℕ)
    → k < 0x7fff_ffff
    → answer (process_echo (record { echo_message = to_string (pos k) }))
      ≡ some (to_string (pos (suc k)))
unfolding answer sent
answer-process_echo k h =
    rw (process_echo-to_string (pos k) (omega arith) (ground arith), pos_next k) refl

answer-process_echo_max : answer (process_echo (record { echo_message = to_string int_max })) ≡ none
unfolding answer
answer-process_echo_max = rw process_echo_max refl

converse-from :
    (n k : ℕ)
    → k < 0x8000_0000
    → converse n (to_string (pos k))
      ≡ (if ltb (k + n) 0x8000_0000 then some (to_string (pos (k + n))) else none)
unfolding converse
converse-from zero k h = ground arith
converse-from (suc n) k h = elim (Bool-cases (k == 0x7fff_ffff)) [
  | inl last ↦
      let e : k ≡ 0x7fff_ffff = ground arith in rw (e, answer-process_echo_max) (ground arith)
  | inr more ↦ rw (answer-process_echo k (ground arith)) (
      converse-from n (suc k) (ground arith)
      ∙ ap (λ m. if ltb m 0x8000_0000 then some (to_string (pos m)) else none) (omega arith))
]

first_echo_lem : first_echo.echo_message ≡ to_string (pos 0)
unfolding to_string
first_echo_lem = refl

-- Started with the client's first echo, the exchange counts: after `n` answers the message is the
-- decimal text of `n`, as long as that is an int; the answer to the largest int is never sent.
pub converse_first_echo :
    (n : ℕ)
    → converse n first_echo.echo_message
      ≡ (if ltb n 0x8000_0000 then some (to_string (pos n)) else none)
converse_first_echo n =
    ap (converse n) first_echo_lem
    ∙ converse-from n 0 (omega arith)
    ∙ ap (λ m. if ltb m 0x8000_0000 then some (to_string (pos m)) else none) (omega arith)
