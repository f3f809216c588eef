-- ===== src/Server/Start/Serving.antt =====
-- When main of the server gets to serve.
use packet_distribution_syst.Prelude.{Bool, ◌≡◌, refl, true, false, Option, none, some, ap, ◌∙◌}
use packet_distribution_syst.Archive.{Bytes}
use packet_distribution_syst.Packets.Crypto.{Crypto}
use packet_distribution_syst.Files.{FileSystem}
use packet_distribution_syst.Common.ReadKey.{
  Location, read_key, read_key-content, content-read_key, content-invalid_argument, ReadKey, key,
  invalid_argument,
}
use packet_distribution_syst.Server.Connections.{construct}
use packet_distribution_syst.Server.Start.{
  port, private_key_pem, Started, serving, Host, create_server, main, with_key, with_signer,
  uncaught_key, uncaught_signer, aborted,
}

module _ (C : Crypto) (F : FileSystem) (location : Location F.FilePath) (host : Host C) where
  -- With the private key, a signer for it and the port at hand, eight threads serve.
  pub main_serves :
      (s : F.State) (bytes : Bytes) (signer : C.Signer)
      → F.content s (F.path private_key_pem) ≡ some bytes
      → host.new_signer bytes ≡ some signer
      → host.listens port ≡ true
      → main C F location host s ≡ serving signer construct 8
  unfolding main with_key with_signer create_server
  main_serves s bytes signer content signs listens =
      ap (with_key C F location host) (read_key-content F location s _ bytes content)
      ∙ ap (with_signer C F location host) signs
      ∙ ap (create_server C F location host signer) listens

  -- Why main ends as it does.
  abbrev pub Cause : F.State → Started F.FilePath C.Signer → Type 0
  Cause s (uncaught_key path) = F.content s (F.path private_key_pem) ≡ none
  Cause s uncaught_signer =
      (bytes : Bytes) × (F.content s (F.path private_key_pem) ≡ some bytes)
      × (host.new_signer bytes ≡ none)
  Cause s aborted =
      (bytes : Bytes) × (signer : C.Signer) × (F.content s (F.path private_key_pem) ≡ some bytes)
      × (host.new_signer bytes ≡ some signer)
      × (host.listens port ≡ false)
  Cause s (serving signer server n) =
      (bytes : Bytes) × (F.content s (F.path private_key_pem) ≡ some bytes)
      × (host.new_signer bytes ≡ some signer)
      × (host.listens port ≡ true)
      × (server ≡ construct)
      × (n ≡ 8)

  create_server-Cause :
      (s : F.State) (bytes : Bytes) (signer : C.Signer) (listens : Bool)
      → F.content s (F.path private_key_pem) ≡ some bytes
      → host.new_signer bytes ≡ some signer
      → host.listens port ≡ listens
      → Cause s (create_server C F location host signer listens)
  unfolding create_server
  create_server-Cause s bytes signer true content made e = (bytes, content, made, e, refl, refl)
  create_server-Cause s bytes signer false content made e = (bytes, signer, content, made, e)

  with_signer-Cause :
      (s : F.State) (bytes : Bytes) (made : Option C.Signer)
      → F.content s (F.path private_key_pem) ≡ some bytes
      → host.new_signer bytes ≡ made
      → Cause s (with_signer C F location host made)
  unfolding with_signer
  with_signer-Cause s bytes none content e = (bytes, content, e)
  with_signer-Cause s bytes (some signer) content e =
      create_server-Cause s bytes signer (host.listens port) content e refl

  with_key-Cause :
      (s : F.State) (read : ReadKey F.FilePath)
      → read_key F location s (F.path private_key_pem) ≡ read
      → Cause s (with_key C F location host read)
  unfolding with_key
  with_key-Cause s (invalid_argument path) e = content-invalid_argument F location s _ path e
  with_key-Cause s (key bytes) e =
      with_signer-Cause s bytes (host.new_signer bytes) (content-read_key F location s _ bytes e)
        refl

  -- The server's main ends by an uncaught exception only if private-key.pem cannot be read, or if no
  -- signer can be made from what it holds; it aborts only if both are there and the port 1234 cannot
  -- be listened on; else eight threads run the server as it is constructed, with that signer.
  pub main-Cause : (s : F.State) → Cause s (main C F location host s)
  unfolding main
  main-Cause s = with_key-Cause s (read_key F location s (F.path private_key_pem)) refl
