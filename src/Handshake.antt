-- ===== src/Handshake.antt =====
-- The key exchange between central_server/main.cpp (encryption_handler_server) and
-- client_test/main.cpp (setup_encryption_for_session).
use packet_distribution_syst.Prelude.{
  ℕ, ◌^◌, ◌≡◌, refl, ap, true, [], ◌∷◌, ◌++◌, ℤ, pos, negsuc, min_ℤ, max_ℤ, to_uint16, append_assoc,
  arith, length, ◌<◌, All, sym, ◌∙◌, zero, suc, some,
}
use mathlib.Core.Path.{ap₂}
use packet_distribution_syst.Archive.{◌>>=◌}
use packet_distribution_syst.Files.{or_empty}
use packet_distribution_syst.Packets.{dh_request, dh_response, echo}
use packet_distribution_syst.Packets.Crypto.{
  Crypto, IsKeyAgreement, IsKeyPair, DhKeyExchangeResponsePacket, Encryption, get_hash,
}
use packet_distribution_syst.Session.{send_packet, setup_encryption}
use packet_distribution_syst.Server.Encryption.{
  Draws, generate, choose_rounds, unsigned_response, make_response, encryption_handler_server,
}
use packet_distribution_syst.Client.Encryption.{
  first_echo, reject, make_request, on_response, setup_encryption_for_session,
}

-- Whatever the chi-squared distribution yields, the response asks for 20 rounds.
pub choose_rounds_const : (chi_squared : ℤ) → choose_rounds chi_squared ≡ pos 20
unfolding choose_rounds min_ℤ max_ℤ
choose_rounds_const (pos n) = ground arith
choose_rounds_const (negsuc n) = ground arith

length-generate : (count next : ℕ) (uniform : ℕ → ℕ) → length (generate count next uniform) ≡ count
unfolding generate
length-generate zero next uniform = refl
length-generate (suc count) next uniform = ap suc (length-generate count (suc next) uniform)

generate-bytes :
    (count next : ℕ) (uniform : ℕ → ℕ) → All (λ b. b < 2 ^ 8) (generate count next uniform)
unfolding generate
generate-bytes zero next uniform = tt
generate-bytes (suc count) next uniform = (omega arith, generate-bytes count (suc next) uniform)

module _ (C : Crypto) where
  make_response_rounds :
      (signer : C.Signer) (draws : Draws C.DiffieHellmanHelper)
      → to_uint16 (make_response C signer draws).n_rounds ≡ 20
  unfolding make_response unsigned_response to_uint16
  make_response_rounds signer draws = rw (choose_rounds_const draws.chi_squared) refl

  make_response_public_key :
      (signer : C.Signer) (draws : Draws C.DiffieHellmanHelper)
      → (make_response C signer draws).public_key ≡ C.get_public_key draws.dh
  unfolding make_response unsigned_response
  make_response_public_key signer draws = refl

  get_hash_same :
      (p q : DhKeyExchangeResponsePacket)
      → p.public_key ++ p.salt ≡ q.public_key ++ q.salt
      → get_hash C p ≡ get_hash C q
  unfolding get_hash
  get_hash_same p q same = ap C.compute_hash (
      sym (append_assoc p.public_key p.salt C.response_unique_id)
      ∙ ap (λ b. b ++ C.response_unique_id) same
      ∙ append_assoc q.public_key q.salt C.response_unique_id)

  on_response_accepted :
      (verifier : C.Verifier) (dh : C.DiffieHellmanHelper) (response : DhKeyExchangeResponsePacket)
      → C.verify_hash verifier (get_hash C response) response.signature ≡ true
      → on_response C verifier dh response ≡ (
          C.get_shared_secret dh response.public_key >>= λ secret. some (
            setup_encryption (record {
              key = C.compute_hash (secret ++ response.salt);
              salt = response.salt;
              n_rounds = to_uint16 response.n_rounds;
            })
            ∷ send_packet (echo first_echo)
            ∷ []))
  unfolding on_response reject
  on_response_accepted verifier dh response right = rw right refl

module _ (C : Crypto) (signer : C.Signer) (verifier : C.Verifier) where
  -- What the server installs for a client with key pair `dh`, from a public key that a helper made: the
  -- specification of the key.
  abbrev pub agreed : C.DiffieHellmanHelper → Draws C.DiffieHellmanHelper → Encryption
  agreed dh draws =
      let salt = (make_response C signer draws).salt in
      record {
        key =
            C.compute_hash (or_empty (C.get_shared_secret draws.dh (C.get_public_key dh)) ++ salt);
        salt = salt;
        n_rounds = 20;
      }

  make_response_accepted :
      IsKeyPair C signer verifier
      → (draws : Draws C.DiffieHellmanHelper)
      → let r = make_response C signer draws in
        C.verify_hash verifier (get_hash C r) r.signature ≡ true
  unfolding make_response get_hash
  make_response_accepted keys draws = keys _ draws.nonce

  -- With matching keys, the server and the client install the same encryption, the client rejects
  -- nothing, and the first echo goes out.
  pub handshake_agrees :
      IsKeyAgreement C
      → IsKeyPair C signer verifier
      → (dh : C.DiffieHellmanHelper) (draws : Draws C.DiffieHellmanHelper)
      → let response = make_response C signer draws in
        (encryption_handler_server C signer draws (make_request C dh)
          ≡ some (send_packet (dh_response response) ∷ setup_encryption (agreed dh draws) ∷ []))
        × (setup_encryption_for_session C verifier dh response
            ≡ some (
                send_packet (dh_request (make_request C dh))
                ∷ setup_encryption (agreed dh draws)
                ∷ send_packet (echo first_echo)
                ∷ []))
  unfolding encryption_handler_server setup_encryption_for_session make_request
  handshake_agrees agreement keys dh draws =
      let (secret, at_server, at_client) = agreement draws.dh dh in
      (
        rw (at_server, make_response_rounds C signer draws) refl,
        rw
            (
              on_response_accepted C verifier dh _ (make_response_accepted keys draws),
              make_response_rounds C signer draws,
              make_response_public_key C signer draws,
              at_client,
              at_server,
            )
            refl,
      )

  -- The signature covers neither the number of rounds nor where the public key ends and the salt
  -- begins: with matching keys, the client takes any response that spells the same bytes under the
  -- same signature, and installs the encryption that it asks for, unless no secret can be computed
  -- from its public key, where the coroutine throws.
  pub altered_response_accepted :
      IsKeyPair C signer verifier
      → (dh : C.DiffieHellmanHelper) (draws : Draws C.DiffieHellmanHelper)
        (altered : DhKeyExchangeResponsePacket)
      → let genuine = make_response C signer draws in
        altered.public_key ++ altered.salt ≡ genuine.public_key ++ genuine.salt
        → altered.signature ≡ genuine.signature
        → on_response C verifier dh altered ≡ (
            C.get_shared_secret dh altered.public_key >>= λ secret. some (
              setup_encryption (record {
                key = C.compute_hash (secret ++ altered.salt);
                salt = altered.salt;
                n_rounds = to_uint16 altered.n_rounds;
              })
              ∷ send_packet (echo first_echo)
              ∷ []))
  altered_response_accepted keys dh draws altered same signed =
      on_response_accepted C verifier dh altered (
        ap₂ (C.verify_hash verifier) (get_hash_same C altered (make_response C signer draws) same)
          signed
        ∙ make_response_accepted keys draws)

module _ (C : Crypto) where
  -- The salt of a response is eight bytes.
  pub make_response_salt :
      (signer : C.Signer) (draws : Draws C.DiffieHellmanHelper)
      → let salt = (make_response C signer draws).salt in
        (length salt ≡ 8) × All (λ b. b < 2 ^ 8) salt
  unfolding make_response unsigned_response
  make_response_salt signer draws =
      (length-generate 8 0 draws.uniform, generate-bytes 8 0 draws.uniform)
