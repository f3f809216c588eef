-- ===== src/System/Connected.antt =====
-- What the server holds, and where the sessions of clients with matching keys are.
use packet_distribution_syst.Prelude.{ℕ, if◌then◌else◌, ◌==◌}
use packet_distribution_syst.Packets.Crypto.{Crypto, IsKeyAgreement, IsKeyPair}
use packet_distribution_syst.Server.Encryption.{Draws}
use packet_distribution_syst.Server.Connections.{TcpServer}
use packet_distribution_syst.Server.Connections
use packet_distribution_syst.Exchange.{Network, Side}
use packet_distribution_syst.Exchange.Phases.{Phase, next, network_of}
use packet_distribution_syst.System.{World}

-- The phase of each session after the turn of one.
abbrev moved : (ℕ → Phase) → ℕ → Side → ℕ → Phase
moved phases j side i = if i == j then next side (phases j) else phases i

module _ (C : Crypto) (signer : C.Signer) (verifier : C.Verifier) (agreement : IsKeyAgreement C)
    (keys : IsKeyPair C signer verifier) (dh : ℕ → C.DiffieHellmanHelper)
    (draws : ℕ → Draws C.DiffieHellmanHelper) where
  abbrev network : ℕ → Phase → Network
  network i = network_of C signer verifier (dh i) (draws i)

  -- Each session is in its phase.
  abbrev pub world : TcpServer → (ℕ → Phase) → World
  world server phases = record { server = server; sessions = λ i. network i (phases i) }
