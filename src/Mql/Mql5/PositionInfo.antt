-- ===== src/Mql/Mql5/PositionInfo.antt =====
-- common/mql-cpp/trade-info.hpp, mql::mql5::PositionInfo
use packet_distribution_syst.Prelude.{refl}
use packet_distribution_syst.Archive.{Codec, Serializer, member, ◌⨾◌}
use packet_distribution_syst.Archive.Transfers.{Arrives, member-Transfers, ◌⨟◌}
use packet_distribution_syst.Mql.Mql5.PositionInfoInteger
use packet_distribution_syst.Mql.Mql5.PositionInfoDouble
use packet_distribution_syst.Mql.Mql5.PositionInfoString

pub record PositionInfo (Double : Type 0) : Type 0 where
  pub position_info_integer : PositionInfoInteger.PositionInfoInteger
  pub position_info_double : PositionInfoDouble.PositionInfoDouble Double
  pub position_info_string : PositionInfoString.PositionInfoString

pub record Fits {Double : Type 0} (x : PositionInfo Double) : Type 0 where
  pub position_info_integer : PositionInfoInteger.Fits x.position_info_integer

module _ (C : Codec) where
  unfoldable pub serialize : Serializer (PositionInfo C.Double)
  serialize =
      member (PositionInfoInteger.serialize C) (λ this. this.position_info_integer)
        (λ this v. record this { position_info_integer = v })
      ⨾ member (PositionInfoDouble.serialize C) (λ this. this.position_info_double)
          (λ this v. record this { position_info_double = v })
      ⨾ member (PositionInfoString.serialize C) (λ this. this.position_info_string)
          (λ this v. record this { position_info_string = v })

  -- Saved, and then loaded into whatever object stands at the other end, an object whose members
  -- fit arrives whole, and what follows it is left unread.
  pub mql5_position_info-Arrives : (x : PositionInfo C.Double) → Fits x → Arrives serialize x
  unfolding serialize
  mql5_position_info-Arrives x fits =
      member-Transfers _ _ _ x refl (
        PositionInfoInteger.mql5_position_info_integer-Arrives C x.position_info_integer
          fits.position_info_integer)
      ⨟ member-Transfers _ _ _ x refl
          (PositionInfoDouble.mql5_position_info_double-Arrives C x.position_info_double)
      ⨟ member-Transfers _ _ _ x refl
          (PositionInfoString.mql5_position_info_string-Arrives C x.position_info_string)
