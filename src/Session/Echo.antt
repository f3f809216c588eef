-- ===== src/Session/Echo.antt =====
-- `process_echo` of central_server/main.cpp and of client_test/main.cpp, which are the same.
use packet_distribution_syst.Prelude.{List, [], ◌∷◌, ℤ, pos, ◌+ℤ◌, ltb_ℤ, if◌then◌else◌}
use packet_distribution_syst.Text.{StoiError, Stoi, value, throws, stoi, to_string}
use packet_distribution_syst.Packets.{EchoPacket, echo}
use packet_distribution_syst.Session.{Call, send_packet}

-- An exception of `std::stoi` leaves the handler before anything is sent. `undefined` is the
-- overflow of the int in `… + 1`.
pub data Outcome : Type 0 where
  returns : List Call → Outcome
  raises : StoiError → Outcome
  undefined : Outcome

abbrev pub int_max : ℤ
int_max = pos 0x7fff_ffff

unfoldable pub reply : Stoi → Outcome
reply (throws e) = raises e
reply (value z) =
    if ltb_ℤ z int_max
    then returns (send_packet (echo (record { echo_message = to_string (z +ℤ pos 1) })) ∷ [])
    else undefined

unfoldable pub process_echo : EchoPacket → Outcome
unfolding reply
process_echo packet = reply (stoi packet.echo_message)
