-- ===== src/Tests/Packets.antt =====
-- common/packets: packets through an archive.
use packet_distribution_syst.Prelude.{
  arith, ℕ, zero, suc, ◌≡◌, refl, List, Option, none, some, [], ◌∷◌, ◌++◌, pos, append_assoc,
  append-nil, length, All,
}
use packet_distribution_syst.Archive.{Bytes, Serializer, saving, loading, ◌>>=◌}
use packet_distribution_syst.Archive.Transfers.{Transfers, Arrives}
use packet_distribution_syst.Archive.Layout.{Layout}
use packet_distribution_syst.NodeInfo.Disk.{DiskInfo}
use packet_distribution_syst.Packets.Catalogue.{mql4_order_info_response}
use packet_distribution_syst.Packets.Payload.{parts, Objects, Payload}
use packet_distribution_syst.Packets.Payload.Arrival.{PartsFit}
use packet_distribution_syst.Packets.{Packet, dh_response}
use packet_distribution_syst.Packets.Payload.Sent.{
  packet_type, save_packet, load_packet, save_packet-Arrives, PacketFits,
}
use packet_distribution_syst.Packets.Parts.{Object}
use packet_distribution_syst.Packets.Parts.Arrival.{PartFits}
use packet_distribution_syst.Packets.Tag.{PacketTag}
use packet_distribution_syst.Tests.Instances.{flat_codec}
use packet_distribution_syst.Tests.Serialization.{mql4_order, mql4_order-Fits}

-- A vector is its length, then its elements.
unfoldable save_all : {A : Type 0} → Serializer A → List A → Bytes → Option (List A × Bytes)
save_all s [] out = some ([], out)
save_all s (x ∷ xs) out =
    s saving x out >>= λ (x', out'). save_all s xs out' >>= λ (xs', out''). some (x' ∷ xs', out'')

unfoldable load_all : {A : Type 0} → A → Serializer A → ℕ → Bytes → Option (List A × Bytes)
load_all blank s zero input = some ([], input)
load_all blank s (suc n) input = s loading blank input >>= λ (x, rest).
    load_all blank s n rest >>= λ (xs, rest'). some (x ∷ xs, rest')

unfoldable vector : {A : Type 0} → A → Serializer A → Serializer (List A)
unfolding save_all load_all
vector blank s saving xs out = save_all s xs (out ++ (length xs ∷ []))
vector blank s loading xs [] = none
vector blank s loading xs (n ∷ input) = load_all blank s n input

encode_all : {A : Type 0} (s : Serializer A) (xs : List A) → All (Arrives s) xs → Bytes
encode_all s [] arrives = []
encode_all s (x ∷ xs) arrives = arrives.0.encoding ++ encode_all s xs arrives.1

save_all-encode_all :
    {A : Type 0} (s : Serializer A) (xs : List A) (arrives : All (Arrives s) xs) (out : Bytes)
    → save_all s xs out ≡ some (xs, out ++ encode_all s xs arrives)
unfolding save_all encode_all
save_all-encode_all s [] arrives out = rw append-nil refl
save_all-encode_all s (x ∷ xs) arrives out =
    rw
      (
        arrives.0.saves out,
        save_all-encode_all s xs arrives.1 (out ++ arrives.0.encoding),
        append_assoc,
      )
      refl

load_all-encode_all :
    {A : Type 0} (blank : A) (s : Serializer A) (xs : List A) (arrives : All (Arrives s) xs)
    (rest : Bytes)
    → load_all blank s (length xs) (encode_all s xs arrives ++ rest) ≡ some (xs, rest)
unfolding load_all encode_all
load_all-encode_all blank s [] arrives rest = refl
load_all-encode_all blank s (x ∷ xs) arrives rest =
    rw
      (
        append_assoc,
        arrives.0.loads blank (encode_all s xs arrives.1 ++ rest),
        load_all-encode_all blank s xs arrives.1 rest,
      )
      refl

vector-Arrives :
    {A : Type 0} (blank : A) (s : Serializer A) (xs : List A)
    → All (Arrives s) xs
    → Arrives (vector blank s) xs
unfolding vector
vector-Arrives blank s xs arrives = record {
  encoding = length xs ∷ encode_all s xs arrives;
  saves = λ out. rw (save_all-encode_all s xs arrives (out ++ (length xs ∷ [])), append_assoc) refl;
  loads = λ y rest. load_all-encode_all blank s xs arrives rest;
}

unfoldable both : {A B : Type 0} → Serializer A → Serializer B → Serializer (A × B)
both s t ar (x, y) buffer =
    s ar x buffer >>= λ (x', rest). t ar y rest >>= λ (y', rest'). some ((x', y'), rest')

both-Transfers :
    {A B : Type 0} (s : Serializer A) (t : Serializer B) (x : A) (y : B) (f : A → A) (g : B → B)
    → Transfers s x f
    → Transfers t y g
    → Transfers (both s t) (x, y) (λ p. (f p.0, g p.1))
unfolding both
both-Transfers s t x y f g a b = record {
  encoding = a.encoding ++ b.encoding;
  saves = λ out. rw (a.saves out, b.saves (out ++ a.encoding), append_assoc) refl;
  loads = λ z rest. rw (append_assoc, a.loads z.0 (b.encoding ++ rest), b.loads z.1 rest) refl;
}

unfoldable nothing : Serializer (Unit {0})
nothing ar x buffer = some (x, buffer)

nothing-Arrives : (x : Unit {0}) → Arrives nothing x
unfolding nothing
nothing-Arrives x = record {
  encoding = [];
  saves = λ out. rw append-nil refl;
  loads = λ y rest. refl;
}

abbrev flat_layout : Layout flat_codec
flat_layout = record {
  zero = 0;
  byte_array = flat_codec.text;
  nothing = nothing;
  both = both;
  vector = vector;
  nothing-Arrives = nothing-Arrives;
  both-Transfers = both-Transfers;
  vector-Arrives = vector-Arrives;
}

abbrev tag : PacketTag
tag = record { uid = 0xffff_ffff_ffff_ffff }

abbrev disk : DiskInfo flat_codec.Double
disk = record { name = b'C' ∷ []; available_bytes = 10; total_bytes = 20 }

-- The `tag`, then mql4's order.
unfoldable order_response : Payload flat_codec mql4_order_info_response
unfolding Objects Object parts
order_response = (tag, (mql4_order, tt))

order_response-PartsFit : PartsFit flat_codec (parts mql4_order_info_response) order_response
unfolding order_response PartsFit PartFits parts
order_response-PartsFit = (omega arith, (mql4_order-Fits, tt))

abbrev response : Packet
response =
    dh_response (record {
      public_key = 30 ∷ [];
      salt = 250 ∷ 251 ∷ [];
      n_rounds = pos 20;
      signature = 7 ∷ [];
    })

save_packet-Arrives_example :
    (bytes : Bytes) × ((out : Bytes)
      → save_packet flat_codec flat_layout response out ≡ some (out ++ bytes))
    × ((y : Payload flat_codec (packet_type response)) (rest : Bytes)
        → load_packet flat_codec flat_layout (packet_type response) y (bytes ++ rest)
          ≡ some (response, rest))
unfolding PacketFits
save_packet-Arrives_example = save_packet-Arrives flat_codec flat_layout response (omega arith)
