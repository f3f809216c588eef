-- ===== src/System.antt =====
-- central_server/main.cpp with its clients: the server that accepts connections and drops closed
-- sessions, and the sessions of the clients, whose number is that of their socket. The events come in
-- any order; a session may also have turns before its connection is accepted. Which sessions are
-- closed when the cleanup looks is what the library answers. The model does not keep a closed session
-- from further turns, which it would not have.
pub mod Connected
use packet_distribution_syst.Prelude.{
  ℕ, zero, suc, ◌+◌, ◌<◌, ◌≤◌, ◌≡◌, refl, sym, ap, ◌∙◌, Bool, true, false, ◌||◌, Option, none, some,
  List, [], ◌∷◌, ◌++◌, if◌then◌else◌, ◌==◌, ==_iff, Bool-cases, inl, inr, arith, append_assoc,
  append-nil,
}
use packet_distribution_syst.Archive.{◌>>=◌}
use packet_distribution_syst.Packets.Crypto.{Crypto, IsKeyAgreement, IsKeyPair}
use packet_distribution_syst.Server.Encryption.{Draws}
use packet_distribution_syst.Server.Connections.{
  DispatcherSession, TcpServer, Accepted, failed, connected, construct, new_session, accept_handler,
  cleanup_task, do_accept, setup_new_connection, erase_if,
}
use packet_distribution_syst.Server.Connections
use packet_distribution_syst.Exchange.{Network, Side, step, connected_network}
use packet_distribution_syst.Exchange.Sessions.{Sessions, replace}

pub record World : Type 0 where
  pub server : TcpServer
  pub sessions : Sessions

-- What happens next: an accept completes, an end of a session takes a turn, or cleanup_task makes a
-- round, with what `session->is_closed()` of the library answers for each session.
pub data Event : Type 0 where
  accepts : Accepted → Event
  turn : ℕ → Side → Event
  cleans : (DispatcherSession → Bool) → Event

-- The turns that are still to come.
unfoldable pub turns_in : List Event → ℕ
turns_in [] = 0
turns_in (turn j side ∷ events) = suc (turns_in events)
turns_in (_ ∷ events) = turns_in events

-- The events of the server.
unfoldable pub server_events : List Event → List Connections.Event
server_events [] = []
server_events (accepts result ∷ events) = Connections.accept result ∷ server_events events
server_events (turn j side ∷ events) = server_events events
server_events (cleans is_closed ∷ events) = Connections.cleanup is_closed ∷ server_events events

-- The turns of a session.
unfoldable pub sides_of : ℕ → List Event → List Side
sides_of i [] = []
sides_of i (turn j side ∷ events) =
    let rest = sides_of i events in if i == j then side ∷ rest else rest
sides_of i (_ ∷ events) = sides_of i events

module _ (C : Crypto) (signer : C.Signer) (verifier : C.Verifier) (dh : ℕ → C.DiffieHellmanHelper)
    (draws : ℕ → Draws C.DiffieHellmanHelper) where
  unfoldable pub step_world : Event → World → Option World
  step_world (accepts result) w = some (record w { server = accept_handler result w.server })
  step_world (turn j side) w = step C signer verifier (dh j) (draws j) side (w.sessions j) >>= λ n.
      some (record w { sessions = replace w.sessions j n })
  step_world (cleans is_closed) w = some (record w { server = cleanup_task is_closed w.server })

  unfoldable pub run_world : List Event → World → Option World
  unfolding step_world
  run_world [] w = some w
  run_world (event ∷ events) w = step_world event w >>= λ v. run_world events v
