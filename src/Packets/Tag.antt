-- ===== src/Packets/Tag.antt =====
-- common/packets/account-trade-info.hpp, PacketTag: the base of every trade packet.
use packet_distribution_syst.Prelude.{ℕ, refl, IsUint64}
use packet_distribution_syst.Archive.{Codec, Serializer, primitive, member}
use packet_distribution_syst.Archive.Transfers.{Arrives, primitive-Arrives, member-Transfers}

pub record PacketTag : Type 0 where
  pub uid : ℕ

module _ (C : Codec) where
  unfoldable pub serialize : Serializer PacketTag
  serialize = member (primitive C.uint64) (λ this. this.uid) (λ this v. record this { uid = v })

  -- A tag arrives whole, whatever it is loaded into.
  pub packet_tag-Arrives : (x : PacketTag) → IsUint64 x.uid → Arrives serialize x
  unfolding serialize
  packet_tag-Arrives x fits = member-Transfers _ _ _ x refl (primitive-Arrives C.uint64 x.uid fits)
