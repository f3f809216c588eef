-- ===== src/Server/Connections/Readiness.antt =====
-- The server stays able to take connections, and every session can serve its peer.
use packet_distribution_syst.Prelude.{◌≡◌, refl, Bool, true, List, [], ◌∷◌, All, All-append, arith}
use packet_distribution_syst.Server.Connections.{
  DispatcherSession, TcpServer, encryption_handler_server, process_echo, failed, connected, Event,
  accept, cleanup, new_session, construct, erase_if, step, run,
}

abbrev IsServed : DispatcherSession → Type 0
IsServed session = session.handlers ≡ encryption_handler_server ∷ process_echo ∷ []

pub record IsReady (server : TcpServer) : Type 0 where
  -- An accept is pending.
  pub pending : server.accepting ≡ true
  -- Every session has both handlers.
  pub served : All IsServed server.connections

erase_if-All :
    (is_closed : DispatcherSession → Bool) (xs : List DispatcherSession)
    → All IsServed xs
    → All IsServed (erase_if is_closed xs)
unfolding erase_if
erase_if-All is_closed [] h = tt
erase_if-All is_closed (x ∷ xs) h = ground (arith, erase_if-All is_closed xs h.1)

step-IsReady : (server : TcpServer) (event : Event) → IsReady server → IsReady (step server event)
unfolding step new_session
step-IsReady server (accept (failed ec)) ready = record { pending = refl; served = ready.served }
step-IsReady server (accept (connected socket)) ready = record {
  pending = refl;
  served = All-append IsServed server.connections _ ready.served (refl, tt);
}
step-IsReady server (cleanup is_closed) ready = record {
  pending = ready.pending;
  served = erase_if-All is_closed server.connections ready.served;
}

run-IsReady :
    (server : TcpServer) (events : List Event) → IsReady server → IsReady (run server events)
unfolding run
run-IsReady server [] ready = ready
run-IsReady server (event ∷ events) ready =
    run-IsReady (step server event) events (step-IsReady server event ready)

-- From its construction on, whatever accepts fail, connections arrive and sessions close, the server
-- has an accept pending and both handlers registered on every session that it keeps.
pub run-construct-IsReady : (events : List Event) → IsReady (run construct events)
unfolding construct
run-construct-IsReady events = run-IsReady _ events (record { pending = refl; served = tt })
