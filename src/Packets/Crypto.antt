-- ===== src/Packets/Crypto.antt =====
-- common/packets/packet-crypto.hpp, and what the program uses of mal-packet-weaver's cryptography,
-- which is a parameter.
use packet_distribution_syst.Prelude.{ℕ, ◌≡◌, ◌++◌, Bool, true, ℤ, Option, some}
use packet_distribution_syst.Archive.{Bytes}

pub record Crypto : Type 1 where
  -- A `DiffieHellmanHelper`, which draws its key pair when it is constructed.
  pub DiffieHellmanHelper : Type 0
  pub get_public_key : DiffieHellmanHelper → Bytes
  -- none for bytes that are no public key, which throws
  pub get_shared_secret : DiffieHellmanHelper → Bytes → Option Bytes
  -- `SHA::ComputeHash(…, SHA256)`
  pub compute_hash : Bytes → Bytes
  pub Signer : Type 0
  pub Verifier : Type 0
  -- An ECDSA signature depends on a nonce.
  pub sign_hash : Signer → Bytes → ℕ → Bytes
  pub verify_hash : Verifier → Bytes → Bytes → Bool
  -- `ByteArray::from_integral(little_to_native(static_unique_id))` of the response packet
  pub response_unique_id : Bytes

-- Both ends of an exchange compute the same secret from public keys that helpers made.
abbrev pub IsKeyAgreement : Crypto → Type 0
IsKeyAgreement C =
    (a b : C.DiffieHellmanHelper)
    → (secret : Bytes) × (C.get_shared_secret a (C.get_public_key b) ≡ some secret)
      × (C.get_shared_secret b (C.get_public_key a) ≡ some secret)

-- The verifier has the signer's public key, and accepts what the signer signs.
abbrev pub IsKeyPair : (C : Crypto) → C.Signer → C.Verifier → Type 0
IsKeyPair C signer verifier =
    (hash : Bytes) (nonce : ℕ) → C.verify_hash verifier hash (C.sign_hash signer hash nonce) ≡ true

pub record DhKeyExchangeRequestPacket : Type 0 where
  pub public_key : Bytes

pub record DhKeyExchangeResponsePacket : Type 0 where
  pub public_key : Bytes
  pub salt : Bytes
  pub n_rounds : ℤ
  pub signature : Bytes

module _ (C : Crypto) where
  unfoldable pub get_hash : DhKeyExchangeResponsePacket → Bytes
  get_hash p = C.compute_hash (p.public_key ++ (p.salt ++ C.response_unique_id))

-- `crypto::AES::AES256` by the arguments that it is constructed from.
pub record Encryption : Type 0 where
  pub key : Bytes
  pub salt : Bytes
  pub n_rounds : ℕ
