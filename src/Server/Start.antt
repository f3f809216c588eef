-- ===== src/Server/Start.antt =====
-- central_server/main.cpp, main up to the threads that run the io_context. The log's level is left
-- out, and so is a thread that cannot be created.
pub mod Serving
use packet_distribution_syst.Prelude.{ℕ, suc, Bool, true, false, Option, none, some, [], ◌∷◌}
use packet_distribution_syst.Archive.{Bytes}
use packet_distribution_syst.Packets.Crypto.{Crypto}
use packet_distribution_syst.Files.{FileSystem}
use packet_distribution_syst.Common.ReadKey.{ReadKey, key, invalid_argument, Location, read_key}
use packet_distribution_syst.Server.Connections.{TcpServer, construct}

abbrev pub k_additional_threads : ℕ
k_additional_threads = 7

abbrev pub port : ℕ
port = 1234

abbrev pub private_key_pem : Bytes
private_key_pem =
    b'p' ∷ b'r' ∷ b'i' ∷ b'v' ∷ b'a' ∷ b't' ∷ b'e' ∷ b'-' ∷ b'k' ∷ b'e' ∷ b'y' ∷ b'.' ∷ b'p' ∷ b'e'
    ∷ b'm' ∷ []

-- How main ends, or what runs when it has started its threads.
pub data Started (FilePath Signer : Type 0) : Type 0 where
  -- An exception that main does not catch, of read_key or of the signer's constructor.
  uncaught_key : FilePath → Started FilePath Signer
  uncaught_signer : Started FilePath Signer
  -- `std::abort()`
  aborted : Started FilePath Signer
  -- The io_context runs on so many threads, main's among them.
  serving : Signer → TcpServer → ℕ → Started FilePath Signer

-- The constructors that main calls; `none` is an exception.
pub record Host (C : Crypto) : Type 0 where
  pub new_signer : Bytes → Option C.Signer
  -- Whether an acceptor can be opened on the port.
  pub listens : ℕ → Bool

module _ (C : Crypto) (F : FileSystem) (location : Location F.FilePath) (host : Host C) where
  -- The try block, by whether the acceptor opens.
  unfoldable pub create_server : C.Signer → Bool → Started F.FilePath C.Signer
  create_server signer true = serving signer construct (suc k_additional_threads)
  create_server signer false = aborted

  unfoldable pub with_signer : Option C.Signer → Started F.FilePath C.Signer
  unfolding create_server
  with_signer none = uncaught_signer
  with_signer (some signer) = create_server signer (host.listens port)

  unfoldable pub with_key : ReadKey F.FilePath → Started F.FilePath C.Signer
  unfolding with_signer
  with_key (invalid_argument path) = uncaught_key path
  with_key (key private_key) = with_signer (host.new_signer private_key)

  unfoldable pub main : F.State → Started F.FilePath C.Signer
  unfolding with_key
  main s = with_key (read_key F location s (F.path private_key_pem))
