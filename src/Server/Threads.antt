-- ===== src/Server/Threads.antt =====
-- central_server/main.cpp: the handlers of TcpServer on the threads that run the io_context. Of the
-- server's state the threads share connections_; connection_access is there to guard it, and no
-- code locks it.
pub mod Token
pub mod Exclusion
pub mod Races
use packet_distribution_syst.Prelude.{
  ℕ, ◌<◌, ◌≡◌, ◌≢◌, Bool, true, false, if◌then◌else◌, ◌==◌, List, [], ◌∷◌, ◌++◌,
}
use packet_distribution_syst.Server.Connections.{
  DispatcherSession, TcpServer, Event, accept, cleanup, failed, connected, construct,
  accept_handler, cleanup_task,
}

-- What a thread is at: waiting for work in `io_context.run()`, in the accept handler from its start
-- until it accepts again, with the new socket, or in a round of cleanup_task.
pub data Work : Type 0 where
  waiting : Work
  appending : ℕ → Work
  erasing : (DispatcherSession → Bool) → Work

pub record Program : Type 0 where
  pub server : TcpServer
  -- cleanup_task waits for its timer, or has not started yet.
  pub suspended : Bool
  pub work : ℕ → Work

-- Thread `i` goes to other work.
abbrev pub assign : (ℕ → Work) → ℕ → Work → ℕ → Work
assign work i w j = if i == j then w else work j

abbrev pub appends : Work → Bool
appends (appending socket) = true
appends _ = false

abbrev pub erases : Work → Bool
erases (erasing is_closed) = true
erases _ = false

-- One thread appends to connections_ while another erases from it.
abbrev pub Races : Program → Type 0
Races s = (i j : ℕ) × (appends (s.work i) ≡ true) × (erases (s.work j) ≡ true)

-- What a thread has done to connections_ is in place when its handler ends.
pub data Step (n : ℕ) (s : Program) : Program → Type 0 where
  accept_fails :
      (i ec : ℕ)
      → i < n
      → s.work i ≡ waiting
      → s.server.accepting ≡ true
      → Step n s (record s { server = accept_handler (failed ec) s.server })
  begin_append :
      (i socket : ℕ)
      → i < n
      → s.work i ≡ waiting
      → s.server.accepting ≡ true
      → Step n s (record {
        server = record (s.server) { accepting = false };
        suspended = s.suspended;
        work = assign s.work i (appending socket);
      })
  end_append :
      (i socket : ℕ)
      → i < n
      → s.work i ≡ appending socket
      → Step n s (record {
        server = accept_handler (connected socket) s.server;
        suspended = s.suspended;
        work = assign s.work i waiting;
      })
  begin_erase :
      (i : ℕ) (is_closed : DispatcherSession → Bool)
      → i < n
      → s.work i ≡ waiting
      → s.suspended ≡ true
      → Step n s (record {
        server = s.server;
        suspended = false;
        work = assign s.work i (erasing is_closed);
      })
  end_erase :
      (i : ℕ) (is_closed : DispatcherSession → Bool)
      → i < n
      → s.work i ≡ erasing is_closed
      → Step n s (record {
        server = cleanup_task is_closed s.server;
        suspended = true;
        work = assign s.work i waiting;
      })
  -- Nothing is promised of a data race.
  undefined : Races s → (t : Program) → Step n s t

-- The constructor has run, and no thread has taken work yet.
abbrev pub started : Program
started = record { server = construct; suspended = true; work = λ _. waiting }

pub data Reach (n : ℕ) : Program → Type 0 where
  start : Reach n started
  later : {s t : Program} → Reach n s → Step n s t → Reach n t

-- No state on the way has a race.
unfoldable pub IsDefined : {n : ℕ} {s : Program} → Reach n s → Type 0
IsDefined start = Unit
IsDefined (later {s} r step) = IsDefined r × ¬ Races s
