-- ===== src/Exchange/Peer.antt =====
-- The server's handlers against any peer, whatever packets it sends.
use packet_distribution_syst.Prelude.{
  ◌≡◌, refl, ap, ◌∙◌, List, [], ◌∷◌, ◌++◌, Option, none, some, pos, ◌+ℤ◌, ltb_ℤ, if◌then◌else◌,
  to_uint16, ℕ, Bool-cases, Option-cases, inl, inr,
}
use packet_distribution_syst.Archive.{Bytes, ◌>>=◌}
use packet_distribution_syst.Text.{Stoi, value, throws, stoi, to_string}
use packet_distribution_syst.Packets.{Packet, dh_request, dh_response, echo, ping, pong, message}
use packet_distribution_syst.Packets.Crypto.{Crypto, Encryption}
use packet_distribution_syst.Session.Echo.{int_max, reply, process_echo}
use packet_distribution_syst.Server.Encryption.{
  Draws, unsigned_response, make_response, encryption_handler_server,
}
use packet_distribution_syst.Handshake.{choose_rounds_const}
use packet_distribution_syst.Exchange.{End, perform, calls_of, server_handlers}

module _ (C : Crypto) (signer : C.Signer) where
  -- The packets of the peer, each with what is drawn while it is handled.
  abbrev pub Input : Type 0
  Input = Packet × Draws C.DiffieHellmanHelper

  -- The server's end after the packets, with all that it has sent.
  unfoldable pub serve : List Input → End → Option (End × List Packet)
  serve [] self = some (self, [])
  serve ((packet, draws) ∷ inputs) self = server_handlers C signer draws self packet >>= λ calls.
      let (next, sent) = perform calls self [] in
      serve inputs next >>= λ (last, more). some (last, sent ++ more)

  -- The sum, where it is an int.
  unfoldable pub counted : Stoi → Option (List Packet)
  counted (throws e) = none
  counted (value z) =
      if ltb_ℤ z int_max
      then some (echo (record { echo_message = to_string (z +ℤ pos 1) }) ∷ [])
      else none

  -- What the peer is owed for a packet; none if the handler does not return.
  unfoldable pub owed : Input → Option (List Packet)
  unfolding counted
  owed (dh_request request, draws) = C.get_shared_secret draws.dh request.public_key >>= λ secret.
      some (dh_response (make_response C signer draws) ∷ [])
  owed (echo packet, draws) = counted (stoi packet.echo_message)
  owed _ = some []

  unfoldable pub all_owed : List Input → Option (List Packet)
  unfolding owed
  all_owed [] = some []
  all_owed (input ∷ inputs) =
      owed input >>= λ packets. all_owed inputs >>= λ more. some (packets ++ more)

  -- The encryption of a key exchange with the secret.
  abbrev secured_by : Bytes → Draws C.DiffieHellmanHelper → Encryption
  secured_by secret draws =
      let salt = (make_response C signer draws).salt in
      record { key = C.compute_hash (secret ++ salt); salt = salt; n_rounds = 20 }

  -- The encryption of the last key exchange.
  unfoldable pub keyed : List Input → Option Encryption → Option Encryption
  keyed [] current = current
  keyed ((dh_request request, draws) ∷ inputs) current =
      keyed inputs (elim (C.get_shared_secret draws.dh request.public_key) [
        | none ↦ current
        | some secret ↦ some (secured_by secret draws)
      ])
  keyed (_ ∷ inputs) current = keyed inputs current

  rounds :
      (draws : Draws C.DiffieHellmanHelper) → to_uint16 (make_response C signer draws).n_rounds ≡ 20
  unfolding make_response unsigned_response to_uint16
  rounds draws = rw (choose_rounds_const draws.chi_squared) refl

  -- The rest of the run, behind what is sent first.
  abbrev and_then : List Packet → Option (End × List Packet) → Option (End × List Packet)
  and_then sent run = run >>= λ (last, more). some (last, sent ++ more)

  behind :
      (self : End) (sent : List Packet) (o : Option (List Packet))
      → and_then sent (o >>= λ packets. some (self, packets))
        ≡ ((o >>= λ more. some (sent ++ more)) >>= λ packets. some (self, packets))
  behind self sent none = refl
  behind self sent (some more) = refl

  -- `serve-all_owed` at these inputs.
  abbrev Serves : List Input → End → Type 0
  Serves inputs self = serve inputs self ≡ (
      all_owed inputs >>= λ packets.
      some (record self { encryption = keyed inputs self.encryption }, packets))

  sends :
      (sent : List Packet) (inputs : List Input) (self : End)
      → Serves inputs self
      → and_then sent (serve inputs self) ≡ (
          (all_owed inputs >>= λ more. some (sent ++ more)) >>= λ packets.
          some (record self { encryption = keyed inputs self.encryption }, packets))
  sends sent inputs self rest = ap (and_then sent) rest ∙ behind _ sent (all_owed inputs)

  counts :
      (number : Stoi) (inputs : List Input) (self : End)
      → Serves inputs self
      → (calls_of (reply number) >>= λ calls.
          let (next, sent) = perform calls self [] in and_then sent (serve inputs next))
        ≡ ((counted number >>= λ packets. all_owed inputs >>= λ more. some (packets ++ more))
            >>= λ packets.
                some (record self { encryption = keyed inputs self.encryption }, packets))
  unfolding calls_of reply counted perform
  counts (throws e) inputs self rest = refl
  counts (value z) inputs self rest = elim (Bool-cases (ltb_ℤ z int_max)) [
    | inl small ↦
        rw small
          (sends (echo (record { echo_message = to_string (z +ℤ pos 1) }) ∷ []) inputs self rest)
    | inr large ↦ rw large refl
  ]

  -- Against any peer, the server answers each packet in its turn: a key exchange request by a
  -- response, an echo of an int below the largest by the next int, and other packets by nothing. Its
  -- session is never destroyed, and its encryption is that of the last key exchange, or the one that
  -- it had. A key exchange request whose public key gives no secret, and an echo of no int or of the
  -- largest, are handlers that do not return.
  pub serve-all_owed :
      (inputs : List Input) (self : End)
      → serve inputs self ≡ (
          all_owed inputs >>= λ packets.
          some (record self { encryption = keyed inputs self.encryption }, packets))
  unfolding serve all_owed owed counted keyed server_handlers perform calls_of process_echo reply
      encryption_handler_server
  serve-all_owed [] self = refl
  serve-all_owed ((dh_request request, draws) ∷ inputs) self =
      let salt = (make_response C signer draws).salt in
      let sent = dh_response (make_response C signer draws) ∷ [] in
      elim (Option-cases (C.get_shared_secret draws.dh request.public_key)) [
        | inl e ↦ rw e refl
        | inr (secret, e) ↦
            let with_rounds : ℕ → Encryption =
              λ n. record { key = C.compute_hash (secret ++ salt); salt = salt; n_rounds = n } in
            rw e (
              ap
                (λ n.
                  and_then sent (serve inputs (record self { encryption = some (with_rounds n) })))
                (rounds draws)
              ∙ sends sent inputs _ (serve-all_owed inputs _))
      ]
  serve-all_owed ((dh_response response, draws) ∷ inputs) self =
      sends [] inputs self (serve-all_owed inputs self)
  serve-all_owed ((ping, draws) ∷ inputs) self = sends [] inputs self (serve-all_owed inputs self)
  serve-all_owed ((pong, draws) ∷ inputs) self = sends [] inputs self (serve-all_owed inputs self)
  serve-all_owed ((message text, draws) ∷ inputs) self =
      sends [] inputs self (serve-all_owed inputs self)
  serve-all_owed ((echo packet, draws) ∷ inputs) self =
      counts (stoi packet.echo_message) inputs self (serve-all_owed inputs self)
