-- ===== src/Packets/Payload/Arrival.antt =====
-- What arrives of a packet.
use packet_distribution_syst.Prelude.{List, [], ◌∷◌, Bool, true, ◌&&◌, ◌≡◌, refl, arith}
use mathlib.Core.Path.{ap₂, subst, fun_ext}
use packet_distribution_syst.Archive.{Codec}
use packet_distribution_syst.Archive.Layout.{Layout}
use packet_distribution_syst.Archive.Transfers.{Transfers, Arrives}
use packet_distribution_syst.Packets.Catalogue.{PacketType}
use packet_distribution_syst.Packets.Parts.{Part}
use packet_distribution_syst.Packets.Parts.Arrival.{
  PartFits, arrived_part, complete, arrived_part-complete, serialize_part-Transfers,
}
use packet_distribution_syst.Packets.Payload.{
  parts, Objects, Payload, serialize_parts, serialize_packet,
}

module _ (C : Codec) where
  unfoldable pub PartsFit : (ks : List Part) → Objects C ks → Type 0
  unfolding Objects PartFits
  PartsFit [] x = Unit
  PartsFit (k ∷ ks) x = PartFits C k x.0 × PartsFit ks x.1

  -- Every base and member keeps what its own serializer brings.
  unfoldable pub arrived_parts : (ks : List Part) → Objects C ks → Objects C ks → Objects C ks
  unfolding Objects arrived_part
  arrived_parts [] x y = x
  arrived_parts (k ∷ ks) x y = (arrived_part C k x.0 y.0, arrived_parts ks x.1 y.1)

unfoldable pub all_complete : List Part → Bool
unfolding complete
all_complete [] = true
all_complete (k ∷ ks) = complete k && all_complete ks

arrived_parts-all_complete :
    (C : Codec) (ks : List Part) (x : Objects C ks)
    → all_complete ks ≡ true
    → (y : Objects C ks) → arrived_parts C ks x y ≡ x
unfolding Objects arrived_parts all_complete
arrived_parts-all_complete C [] x e y = refl
arrived_parts-all_complete C (k ∷ ks) x e y =
    ap₂ (λ a b. (a, b)) (arrived_part-complete C k x.0 y.0 (ground (arith, e)))
      (arrived_parts-all_complete C ks x.1 (ground (arith, e)) y.1)

module _ (C : Codec) (layout : Layout C) where
  serialize_parts-Transfers :
      (ks : List Part) (x : Objects C ks)
      → PartsFit C ks x
      → Transfers (serialize_parts C layout ks) x (arrived_parts C ks x)
  unfolding Objects PartsFit arrived_parts serialize_parts
  serialize_parts-Transfers [] x fits = layout.nothing-Arrives x
  serialize_parts-Transfers (k ∷ ks) x fits =
      layout.both-Transfers _ _ x.0 x.1 (arrived_part C k x.0) (arrived_parts C ks x.1)
        (serialize_part-Transfers C layout k x.0 fits.0) (serialize_parts-Transfers ks x.1 fits.1)

  -- For every packet that the repository declares, when its integers and times are in the range of
  -- their types, saving its payload appends bytes from which loading gives each base and member as
  -- its own serializer brings it, in the macro call's order, and leaves what follows unread.
  pub serialize_packet-Transfers :
      (packet : PacketType) (x : Payload C packet)
      → PartsFit C (parts packet) x
      → Transfers (serialize_packet C layout packet) x (arrived_parts C (parts packet) x)
  unfolding serialize_packet
  serialize_packet-Transfers packet x fits = serialize_parts-Transfers (parts packet) x fits

  -- A packet with none of the five payload classes whose `serialize` leaves members out (mql5's
  -- AccountInfoInteger, AccountInfoDouble, OrderInfoInteger and OrderInfo, and mql4's OrderInfo)
  -- arrives whole, whatever stood in the object that it is loaded into, when its integers and times
  -- are in the range of their types.
  pub serialize_packet-Arrives :
      (packet : PacketType) (x : Payload C packet)
      → PartsFit C (parts packet) x
      → all_complete (parts packet) ≡ true
      → Arrives (serialize_packet C layout packet) x
  serialize_packet-Arrives packet x fits whole =
      subst (Transfers (serialize_packet C layout packet) x)
        (fun_ext (arrived_parts-all_complete C (parts packet) x whole))
        (serialize_packet-Transfers packet x fits)
