-- ===== src/Tests/Deployment.antt =====
-- The three programs together, and main of the server, at concrete inputs.
use packet_distribution_syst.Prelude.{
  ℕ, ◌+◌, ◌≡◌, refl, inl, true, Option, none, some, [], ◌∷◌, ◌==◌, arith, if◌then◌else◌,
}
use packet_distribution_syst.Archive.{Bytes}
use packet_distribution_syst.Common.ReadKey.{Location}
use packet_distribution_syst.Keygen.Command as Keygen
use packet_distribution_syst.Text.{same_text}
use packet_distribution_syst.Keygen.Command.{VariablesMap, Ecdsa, override, finished}
use packet_distribution_syst.Keygen.Command.Generated.{AreKeyPairs, pairs_from}
use packet_distribution_syst.Keygen.Command.IntoOne.{main_merged}
use packet_distribution_syst.Keygen.Command.Options.{
  secp256k1, opt_merge, opt_private_merged, opt_public_merged,
}
use packet_distribution_syst.Keygen.Merged.Contents.{lines, private_of, public_of}
use packet_distribution_syst.Server.Connections.{construct}
use packet_distribution_syst.Server.Start as ServerStart
use packet_distribution_syst.Server.Start.{
  private_key_pem, port, serving, with_key, with_signer, create_server,
}
use packet_distribution_syst.Server.Start.Serving as ServerCause
use packet_distribution_syst.Client.Start as ClientStart
use packet_distribution_syst.Client.Start.Running as ClientCause
use packet_distribution_syst.Client.Start.{public_key_pem, new_session, running}
use packet_distribution_syst.Exchange.{Network, run_network, connected_network}
use packet_distribution_syst.Exchange.Schedule.{turns}
use packet_distribution_syst.Exchange.Liveness.{IsSecured}
use packet_distribution_syst.Deployment.{MakesKeys, CanStore, deployed}
use packet_distribution_syst.Tests.Instances.{
  eq_bytes, sum_crypto, sum_crypto-IsKeyAgreement, sum_crypto-IsKeyPair, FolderAndName, Contents,
  flat_files, flat_files-IsLawful,
}
use packet_distribution_syst.Tests.Sessions.{draws, alternate, alternate-IsFair}

abbrev location : Location FolderAndName
location = record { is_absolute = λ p. true; in_current_path = λ p. p }

-- Only an empty key is no key.
abbrev accept_key : Bytes → Option (Unit {0})
accept_key [] = none
accept_key (c ∷ key) = some tt

abbrev server_host : ServerStart.Host sum_crypto
server_host = record { new_signer = accept_key; listens = λ p. p == 1234 }

abbrev client_host : ClientStart.Host sum_crypto
client_host = record { new_verifier = accept_key; connect = λ i. some (i + 40000) }

-- A pair is its number, and a signature the hash, as in the cryptography of the sessions.
abbrev numbered : Ecdsa
numbered = record {
  KeyPairGenerator = Unit {0};
  make_generator = λ curve. if same_text curve secp256k1 then some tt else none;
  generate = λ _ i. record { private_key = i ∷ 1 ∷ []; public_key = i ∷ 2 ∷ [] };
  compute_hash = λ bytes. bytes;
  sign_hash = λ private_key hash nonce. hash;
  verify_hash = λ public_key. eq_bytes;
  rand = λ n. n;
}

numbered-AreKeyPairs : AreKeyPairs numbered
numbered-AreKeyPairs g i hash nonce = sum_crypto-IsKeyPair hash nonce

abbrev no_files : Contents
no_files p = none

-- --merge=true --private-key-merged-file=private-key.pem --public-key-merged-file=public-key.pem
abbrev command_line : VariablesMap
command_line = record {
  contains = λ name. same_text name opt_merge;
  text = λ name.
      if same_text name opt_private_merged
      then some private_key_pem
      else if same_text name opt_public_merged
      then some public_key_pem
      else none;
  number = λ name. none;
  flag = λ name. if same_text name opt_merge then some true else none;
}

command_line-MakesKeys : MakesKeys command_line
unfolding same_text
command_line-MakesKeys = record {
  no_help = refl;
  merge = refl;
  private_file = refl;
  public_file = refl;
  amount = refl;
}

command_line-CanStore : CanStore flat_files command_line no_files
unfolding same_text override
command_line-CanStore = record {
  distinct = λ e. ground (arith, e);
  open_private = refl;
  open_public = refl;
  allowed = inl refl;
}

deployed_example :
    (t : Contents) × (Keygen.main flat_files numbered (some command_line) no_files ≡ finished t)
    × (ServerStart.main sum_crypto flat_files location server_host t ≡ serving tt construct 8)
    × (ClientStart.main sum_crypto flat_files location client_host t
        ≡ running tt (new_session 40000) [] 8)
    × (n : ℕ) × (m : Network) × (run_network sum_crypto tt tt 12 draws
          (turns alternate 0 n)
          (connected_network sum_crypto tt tt 12 draws)
        ≡ some m)
    × IsSecured sum_crypto tt tt 12 draws m 1000000
unfolding lines same_text override
deployed_example =
    deployed sum_crypto numbered flat_files flat_files-IsLawful location sum_crypto-IsKeyAgreement
      numbered-AreKeyPairs server_host client_host command_line tt no_files command_line-MakesKeys
      refl command_line-CanStore tt tt refl refl (λ hash nonce. refl) (λ hash signature. refl) refl
      40000 refl 12 draws alternate alternate-IsFair 1000000 (omega arith)

main_merged_example :
    let pairs = pairs_from numbered tt 1 0 in
    (t : Contents) × (Keygen.main flat_files numbered (some command_line) no_files ≡ finished t)
    × (t (flat_files.path private_key_pem) ≡ some (lines private_of pairs))
    × (t (flat_files.path public_key_pem) ≡ some (lines public_of pairs))
unfolding same_text override
main_merged_example =
    main_merged flat_files flat_files-IsLawful numbered numbered-AreKeyPairs command_line tt
      no_files private_key_pem public_key_pem refl refl refl refl refl (λ e. ground (arith, e)) refl
      refl (inl refl)

abbrev key_file : Contents
key_file p = some (9 ∷ [])

main-Cause_example :
    ServerCause.Cause sum_crypto flat_files location server_host key_file
      (ServerStart.main sum_crypto flat_files location server_host key_file)
main-Cause_example = ServerCause.main-Cause sum_crypto flat_files location server_host key_file
