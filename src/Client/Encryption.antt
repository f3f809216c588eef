-- ===== src/Client/Encryption.antt =====
-- client_test/main.cpp, setup_encryption_for_session. Log lines are left out.
use packet_distribution_syst.Prelude.{
  List, [], ◌∷◌, ◌++◌, Bool, true, false, to_uint16, Option, some,
}
use packet_distribution_syst.Archive.{◌>>=◌}
use packet_distribution_syst.Packets.{EchoPacket, dh_request, echo}
use packet_distribution_syst.Packets.Crypto.{
  Crypto, DhKeyExchangeRequestPacket, DhKeyExchangeResponsePacket, Encryption, get_hash,
}
use packet_distribution_syst.Session.{Call, send_packet, setup_encryption, destroy}

-- The coroutine waits for the response between these calls and those of `on_response`.
abbrev pub first_echo : EchoPacket
first_echo = record { echo_message = b'0' ∷ [] }

-- The session is destroyed on a wrong signature, and the coroutine goes on.
unfoldable pub reject : Bool → List Call
reject true = []
reject false = destroy ∷ []

module _ (C : Crypto) where
  unfoldable pub make_request : C.DiffieHellmanHelper → DhKeyExchangeRequestPacket
  make_request dh = record { public_key = C.get_public_key dh }

  -- none if the secret cannot be computed: the coroutine ends by the exception, and
  -- what it has called before is left out.
  unfoldable pub on_response :
      C.Verifier → C.DiffieHellmanHelper → DhKeyExchangeResponsePacket → Option (List Call)
  on_response verifier dh response = C.get_shared_secret dh response.public_key >>= λ shared_secret.
      let encryption : Encryption = record {
        key = C.compute_hash (shared_secret ++ response.salt);
        salt = response.salt;
        n_rounds = to_uint16 response.n_rounds;
      } in
      some (
        reject (C.verify_hash verifier (get_hash C response) response.signature)
        ++ (setup_encryption encryption ∷ send_packet (echo first_echo) ∷ []))

  -- The calls of a run in which `response` is the packet that the wait ends with.
  unfoldable pub setup_encryption_for_session :
      C.Verifier → C.DiffieHellmanHelper → DhKeyExchangeResponsePacket → Option (List Call)
  setup_encryption_for_session verifier dh response = on_response verifier dh response >>= λ calls.
      some (send_packet (dh_request (make_request dh)) ∷ calls)
