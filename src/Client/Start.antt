-- ===== src/Client/Start.antt =====
-- client_test/main.cpp, main up to the threads that run the io_context. The log's level is left out,
-- and so is a thread that cannot be created.
pub mod Running
use packet_distribution_syst.Prelude.{ℕ, zero, suc, Option, none, some, List, [], ◌∷◌, ◌++◌}
use packet_distribution_syst.Archive.{Bytes}
use packet_distribution_syst.Packets.Crypto.{Crypto}
use packet_distribution_syst.Files.{FileSystem}
use packet_distribution_syst.Common.ReadKey.{ReadKey, key, invalid_argument, Location, read_key}

abbrev pub k_additional_threads : ℕ
k_additional_threads = 7

abbrev pub k_amount_of_sessions : ℕ
k_amount_of_sessions = 1

abbrev pub public_key_pem : Bytes
public_key_pem =
    b'p' ∷ b'u' ∷ b'b' ∷ b'l' ∷ b'i' ∷ b'c' ∷ b'-' ∷ b'k' ∷ b'e' ∷ b'y' ∷ b'.' ∷ b'p' ∷ b'e' ∷ b'm'
    ∷ []

-- A handler that is registered, or a coroutine that is spawned.
pub data Task : Type 0 where
  process_echo setup_encryption_for_session : Task

-- A `DispatcherSession` by its socket.
pub record ClientSession : Type 0 where
  pub socket : ℕ
  pub tasks : List Task

-- How main ends, or what runs when it has started its threads.
pub data Started (FilePath Verifier : Type 0) : Type 0 where
  -- An exception that main does not catch, of read_key or of the verifier's constructor.
  uncaught_key : FilePath → Started FilePath Verifier
  uncaught_verifier : Started FilePath Verifier
  -- With no session the io_context has no work, and main returns.
  returned : Started FilePath Verifier
  running : Verifier → ClientSession → List ClientSession → ℕ → Started FilePath Verifier

-- What the round of the loop appends.
unfoldable pub new_session : ℕ → ClientSession
new_session socket = record {
  socket = socket;
  tasks = process_echo ∷ setup_encryption_for_session ∷ [];
}

-- `connect` gives the socket of the attempt of a number, or none for an exception: the loop breaks.
unfoldable pub connect_loop : (ℕ → Option ℕ) → ℕ → ℕ → List ClientSession → List ClientSession
unfolding new_session
connect_loop connect zero i sessions = sessions
connect_loop connect (suc rounds) i sessions = elim (connect i) [
  | none ↦ sessions
  | some socket ↦ connect_loop connect rounds (suc i) (sessions ++ (new_session socket ∷ []))
]

unfoldable pub run_threads :
    {FilePath Verifier : Type 0} → Verifier → List ClientSession → Started FilePath Verifier
run_threads verifier [] = returned
run_threads verifier (session ∷ sessions) =
    running verifier session sessions (suc k_additional_threads)

-- The constructor of the verifier, and the connections; `none` is an exception.
pub record Host (C : Crypto) : Type 0 where
  pub new_verifier : Bytes → Option C.Verifier
  pub connect : ℕ → Option ℕ

module _ (C : Crypto) (F : FileSystem) (location : Location F.FilePath) (host : Host C) where
  unfoldable pub with_verifier : Option C.Verifier → Started F.FilePath C.Verifier
  unfolding connect_loop run_threads
  with_verifier none = uncaught_verifier
  with_verifier (some verifier) =
      run_threads verifier (connect_loop host.connect k_amount_of_sessions 0 [])

  unfoldable pub with_key : ReadKey F.FilePath → Started F.FilePath C.Verifier
  unfolding with_verifier
  with_key (invalid_argument path) = uncaught_key path
  with_key (key public_key) = with_verifier (host.new_verifier public_key)

  unfoldable pub main : F.State → Started F.FilePath C.Verifier
  unfolding with_key
  main s = with_key (read_key F location s (F.path public_key_pem))
