-- ===== src/Server/Connections.antt =====
-- central_server/main.cpp, class TcpServer: the acceptor, the sessions that it keeps and the task
-- that drops closed ones. Each handler runs as one step here. Whether a session is closed
-- is what mal-packet-weaver says then.
pub mod Survival
pub mod Readiness
use packet_distribution_syst.Prelude.{ℕ, Bool, true, false, List, [], ◌∷◌, ◌++◌, if◌then◌else◌}

pub data Handler : Type 0 where
  encryption_handler_server process_echo : Handler

-- A `DispatcherSession` by its socket, with the handlers that are registered.
pub record DispatcherSession : Type 0 where
  pub socket : ℕ
  pub handlers : List Handler

pub record TcpServer : Type 0 where
  -- an `async_accept` is pending
  pub accepting : Bool
  pub connections : List DispatcherSession

unfoldable pub do_accept : TcpServer → TcpServer
do_accept server = record server { accepting = true }

unfoldable pub new_session : ℕ → DispatcherSession
new_session socket = record {
  socket = socket;
  handlers = encryption_handler_server ∷ process_echo ∷ [];
}

unfoldable pub setup_new_connection : ℕ → TcpServer → TcpServer
unfolding new_session
setup_new_connection socket server = record server {
  connections = server.connections ++ (new_session socket ∷ []);
}

-- The constructor.
unfoldable pub construct : TcpServer
unfolding do_accept
construct = do_accept (record { accepting = false; connections = [] })

-- What completes the pending accept: an error code, or a socket.
pub data Accepted : Type 0 where
  failed : ℕ → Accepted
  connected : ℕ → Accepted

-- The completion handler; the pending operation is used up before it runs.
unfoldable pub accept_handler : Accepted → TcpServer → TcpServer
unfolding do_accept setup_new_connection
accept_handler (failed ec) server = do_accept (record server { accepting = false })
accept_handler (connected socket) server =
    do_accept (setup_new_connection socket (record server { accepting = false }))

unfoldable pub erase_if :
    (DispatcherSession → Bool) → List DispatcherSession → List DispatcherSession
erase_if is_closed [] = []
erase_if is_closed (session ∷ sessions) =
    let rest = erase_if is_closed sessions in if is_closed session then rest else session ∷ rest

-- One round of the loop.
unfoldable pub cleanup_task : (DispatcherSession → Bool) → TcpServer → TcpServer
unfolding erase_if
cleanup_task is_closed server = record server {
  connections = erase_if is_closed server.connections;
}

pub data Event : Type 0 where
  accept : Accepted → Event
  cleanup : (DispatcherSession → Bool) → Event

unfoldable pub step : TcpServer → Event → TcpServer
unfolding accept_handler cleanup_task
step server (accept result) = accept_handler result server
step server (cleanup is_closed) = cleanup_task is_closed server

unfoldable pub run : TcpServer → List Event → TcpServer
run server [] = server
run server (event ∷ events) = run (step server event) events
