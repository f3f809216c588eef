-- ===== src/Client/Start/Running.antt =====
-- When main of the client gets to run its session.
use packet_distribution_syst.Prelude.{ℕ, ◌≡◌, refl, ap, ◌∙◌, some, [], none}
use packet_distribution_syst.Archive.{Bytes}
use packet_distribution_syst.Packets.Crypto.{Crypto}
use packet_distribution_syst.Files.{FileSystem}
use packet_distribution_syst.Common.ReadKey.{Location, ReadKey, read_key-content}
use packet_distribution_syst.Client.Start.{
  Host, main, public_key_pem, new_session, connect_loop, run_threads, with_verifier, with_key,
  running, uncaught_key, uncaught_verifier, returned, Started,
}

module _ (C : Crypto) (F : FileSystem) (location : Location F.FilePath) (host : Host C) where
  -- With the public key, a verifier for it and a server to connect to, eight threads run one session.
  pub main_runs :
      (s : F.State) (bytes : Bytes) (verifier : C.Verifier) (socket : ℕ)
      → F.content s (F.path public_key_pem) ≡ some bytes
      → host.new_verifier bytes ≡ some verifier
      → host.connect 0 ≡ some socket
      → main C F location host s ≡ running verifier (new_session socket) [] 8
  unfolding main with_key with_verifier connect_loop run_threads
  main_runs s bytes verifier socket content made connects =
      ap (with_key C F location host) (read_key-content F location s _ bytes content)
      ∙ ap (with_verifier C F location host) made
      ∙ rw (connects, connect_loop) refl

  -- Why main ends as it does.
  abbrev pub Cause : F.State → Started F.FilePath C.Verifier → Type 0
  Cause s (uncaught_key path) = F.content s (F.path public_key_pem) ≡ none
  Cause s uncaught_verifier =
      (bytes : Bytes) × (F.content s (F.path public_key_pem) ≡ some bytes)
      × (host.new_verifier bytes ≡ none)
  Cause s returned =
      (bytes : Bytes) × (verifier : C.Verifier) × (F.content s (F.path public_key_pem) ≡ some bytes)
      × (host.new_verifier bytes ≡ some verifier)
      × (host.connect 0 ≡ none)
  Cause s (running verifier session sessions n) =
      (bytes : Bytes) × (F.content s (F.path public_key_pem) ≡ some bytes)
      × (host.new_verifier bytes ≡ some verifier)
      × (host.connect 0 ≡ some session.socket)
      × (session ≡ new_session session.socket)
      × (sessions ≡ [])
      × (n ≡ 8)
