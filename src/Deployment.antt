-- ===== src/Deployment.antt =====
-- The three programs together: keygen/main.cc writes a pair of keys where central_server/main.cpp and
-- client_test/main.cpp look for them, the two start, and their session runs.
use packet_distribution_syst.Prelude.{
  ℕ, ◌<◌, ◌≡◌, ◌≢◌, ◌⊎◌, ap, ◌∙◌, true, false, none, some, [], ◌∷◌,
}
use packet_distribution_syst.Archive.{Bytes}
use packet_distribution_syst.Packets.Crypto.{Crypto, IsKeyAgreement, IsKeyPair}
use packet_distribution_syst.Files.{FileSystem}
use packet_distribution_syst.Files.Laws.{IsLawful}
use packet_distribution_syst.Common.ReadKey.{Location}
use packet_distribution_syst.Keygen.Merged.Contents.{lines, private_of, public_of}
use packet_distribution_syst.Keygen.Command as Keygen
use packet_distribution_syst.Keygen.Command.{VariablesMap, Ecdsa, override, finished}
use packet_distribution_syst.Keygen.Command.Generated.{AreKeyPairs, pairs_from}
use packet_distribution_syst.Keygen.Command.IntoOne.{main_merged}
use packet_distribution_syst.Keygen.Command.Options.{
  secp256k1, opt_help, opt_curve, opt_amount, opt_force, opt_merge, opt_private_merged,
  opt_public_merged,
}
use packet_distribution_syst.Server.Connections.{construct}
use packet_distribution_syst.Server.Encryption.{Draws}
use packet_distribution_syst.Server.Start as ServerStart
use packet_distribution_syst.Server.Start.{private_key_pem, port, serving}
use packet_distribution_syst.Server.Start.Serving.{main_serves}
use packet_distribution_syst.Client.Start as ClientStart
use packet_distribution_syst.Client.Start.{public_key_pem, new_session, running}
use packet_distribution_syst.Client.Start.Running.{main_runs}
use packet_distribution_syst.Exchange.{Network, run_network, connected_network}
use packet_distribution_syst.Exchange.Schedule.{Schedule, IsFair, turns}
use packet_distribution_syst.Exchange.Liveness.{IsSecured, run_network_progresses}

-- The command line of keygen that makes one pair in the two files.
pub record MakesKeys (vm : VariablesMap) : Type 0 where
  pub no_help : vm.contains opt_help ≡ false
  pub merge : vm.flag opt_merge ≡ some true
  pub private_file : vm.text opt_private_merged ≡ some private_key_pem
  pub public_file : vm.text opt_public_merged ≡ some public_key_pem
  pub amount : vm.number opt_amount ≡ none

-- The two files are different, can be opened, and do not exist or may be overwritten.
pub record CanStore (F : FileSystem) (vm : VariablesMap) (s : F.State) : Type 0 where
  pub distinct : F.path private_key_pem ≢ F.path public_key_pem
  pub open_private : F.can_open s (F.path private_key_pem) ≡ true
  pub open_public : F.can_open s (F.path public_key_pem) ≡ true
  pub allowed :
      (override true (vm.flag opt_force) ≡ true)
      ⊎ ((F.exists s (F.path private_key_pem) ≡ false)
          × (F.exists s (F.path public_key_pem) ≡ false))

module _ (C : Crypto) (E : Ecdsa) where
  -- The signer signs with the key, and the verifier checks with it.
  abbrev pub SignsWith : C.Signer → Bytes → Type 0
  SignsWith signer key =
      (hash : Bytes) (nonce : ℕ) → C.sign_hash signer hash nonce ≡ E.sign_hash key hash nonce

  abbrev pub ChecksWith : C.Verifier → Bytes → Type 0
  ChecksWith verifier key =
      (hash signature : Bytes)
      → C.verify_hash verifier hash signature ≡ E.verify_hash key hash signature

  generated-IsKeyPair :
      AreKeyPairs E
      → (g : E.KeyPairGenerator) (signer : C.Signer) (verifier : C.Verifier)
      → SignsWith signer (E.generate g 0).private_key
      → ChecksWith verifier (E.generate g 0).public_key
      → IsKeyPair C signer verifier
  generated-IsKeyPair pairs g signer verifier signs checks hash nonce =
      checks hash (C.sign_hash signer hash nonce)
      ∙ ap (E.verify_hash (E.generate g 0).public_key hash) (signs hash nonce)
      ∙ pairs g 0 hash nonce

module _ (C : Crypto) (E : Ecdsa) (F : FileSystem) (L : IsLawful F) (location : Location F.FilePath)
    (agreement : IsKeyAgreement C) (pairs : AreKeyPairs E) (server_host : ServerStart.Host C)
    (client_host : ClientStart.Host C) where
  -- Let keygen be called to make one pair in private-key.pem and public-key.pem, two files that it can
  -- write. It ends regularly; then the server's main serves and the client's main runs one session,
  -- both on eight threads, provided that the signer and the verifier made from the two files work
  -- with the keys in them, that the port can be listened on and that the client connects. Along every
  -- order of turns in which each end has a turn again and again, the session comes to where both ends
  -- have the same encryption and the echo of number k is on its way, for every k below 2 ^ 31.
  pub deployed :
      (vm : VariablesMap) (g : E.KeyPairGenerator) (s : F.State)
      → MakesKeys vm
      → E.make_generator (override secp256k1 (vm.text opt_curve)) ≡ some g
      → CanStore F vm s
      → (signer : C.Signer) (verifier : C.Verifier)
      → server_host.new_signer (lines private_of (E.generate g 0 ∷ [])) ≡ some signer
      → client_host.new_verifier (lines public_of (E.generate g 0 ∷ [])) ≡ some verifier
      → SignsWith C E signer (E.generate g 0).private_key
      → ChecksWith C E verifier (E.generate g 0).public_key
      → server_host.listens port ≡ true
      → (socket : ℕ) → client_host.connect 0 ≡ some socket
      → (dh : C.DiffieHellmanHelper) (draws : Draws C.DiffieHellmanHelper) (schedule : Schedule)
      → IsFair schedule
      → (k : ℕ) → k < 0x8000_0000
      → (t : F.State) × (Keygen.main F E (some vm) s ≡ finished t)
        × (ServerStart.main C F location server_host t ≡ serving signer construct 8)
        × (ClientStart.main C F location client_host t ≡ running verifier (new_session socket) [] 8)
        × (n : ℕ) × (m : Network) × (run_network C signer verifier dh draws
              (turns schedule 0 n)
              (connected_network C signer verifier dh draws)
            ≡ some m)
        × IsSecured C signer verifier dh draws m k
  unfolding override pairs_from
  deployed vm g s makes made stores signer verifier new_signer new_verifier signs checks listens
        socket connects dh draws schedule fair k h =
      let (t, ended, private_file, public_file) =
        main_merged F L E pairs vm g s private_key_pem public_key_pem makes.no_help makes.merge
          makes.private_file makes.public_file made stores.distinct stores.open_private
          stores.open_public stores.allowed in
      let keys = generated-IsKeyPair C E pairs g signer verifier signs checks in
      let (n, m, ran, secured) =
        run_network_progresses C signer verifier agreement keys dh draws schedule fair k h in
      (
        t,
        ended,
        main_serves C F location server_host t _ signer
            (private_file
              ∙ ap (λ o. some (lines private_of (pairs_from E g (override 1 o) 0))) makes.amount)
            new_signer listens,
        main_runs C F location client_host t _ verifier socket
            (public_file
              ∙ ap (λ o. some (lines public_of (pairs_from E g (override 1 o) 0))) makes.amount)
            new_verifier connects,
        n,
        m,
        ran,
        secured,
      )
