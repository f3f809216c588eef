-- ===== src/Server/Encryption.antt =====
-- central_server/main.cpp, TcpServer::encryption_handler_server. Log lines are left out.
use packet_distribution_syst.Prelude.{
  ℕ, zero, suc, ◌%◌, ◌^◌, List, [], ◌∷◌, ◌++◌, ℤ, pos, ◌+ℤ◌, min_ℤ, max_ℤ, to_uint16, Option, some,
}
use packet_distribution_syst.Archive.{Bytes, ◌>>=◌}
use packet_distribution_syst.Packets.{dh_response}
use packet_distribution_syst.Packets.Crypto.{
  Crypto, DhKeyExchangeRequestPacket, DhKeyExchangeResponsePacket, Encryption, get_hash,
}
use packet_distribution_syst.Session.{Call, send_packet, setup_encryption}

-- What the handler takes from random sources: the key pair, the values of the uniform distribution
-- in the order of the calls, the chi-squared value as an int, and the nonce of the signature.
pub record Draws (Helper : Type 0) : Type 0 where
  pub dh : Helper
  pub uniform : ℕ → ℕ
  pub chi_squared : ℤ
  pub nonce : ℕ

-- `std::generate` over `count` bytes, from the call number `next` on.
unfoldable pub generate : ℕ → ℕ → (ℕ → ℕ) → Bytes
generate zero next uniform = []
generate (suc count) next uniform = (uniform next % 2 ^ 8) ∷ generate count (suc next) uniform

unfoldable pub choose_rounds : ℤ → ℤ
choose_rounds chi_squared = max_ℤ (min_ℤ (pos 5 +ℤ chi_squared) (pos 5)) (pos 20)

module _ (C : Crypto) where
  unfoldable pub unsigned_response : Draws C.DiffieHellmanHelper → DhKeyExchangeResponsePacket
  unfolding generate
  unsigned_response draws = record {
    public_key = C.get_public_key draws.dh;
    salt = generate 8 0 draws.uniform;
    n_rounds = choose_rounds draws.chi_squared;
    signature = [];
  }

  unfoldable pub make_response :
      C.Signer → Draws C.DiffieHellmanHelper → DhKeyExchangeResponsePacket
  unfolding unsigned_response
  make_response signer draws =
      let packet = unsigned_response draws in
      record packet { signature = C.sign_hash signer (get_hash C packet) draws.nonce }

  -- none if the secret cannot be computed: the handler throws before it has sent anything.
  unfoldable pub encryption_handler_server :
      C.Signer → Draws C.DiffieHellmanHelper → DhKeyExchangeRequestPacket → Option (List Call)
  encryption_handler_server signer draws exchange_request =
      let response_packet = make_response signer draws in
      C.get_shared_secret draws.dh exchange_request.public_key >>= λ shared_secret.
      let encryption : Encryption = record {
        key = C.compute_hash (shared_secret ++ response_packet.salt);
        salt = response_packet.salt;
        n_rounds = to_uint16 response_packet.n_rounds;
      } in
      some (send_packet (dh_response response_packet) ∷ setup_encryption encryption ∷ [])
