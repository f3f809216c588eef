-- ===== src/Mql/Mql5/DealInfo.antt =====
-- common/mql-cpp/trade-info.hpp, mql::mql5::DealInfo
use packet_distribution_syst.Prelude.{refl}
use packet_distribution_syst.Archive.{Codec, Serializer, member, ◌⨾◌}
use packet_distribution_syst.Archive.Transfers.{Arrives, member-Transfers, ◌⨟◌}
use packet_distribution_syst.Mql.Mql5.DealInfoInteger
use packet_distribution_syst.Mql.Mql5.DealInfoDouble
use packet_distribution_syst.Mql.Mql5.DealInfoString

pub record DealInfo (Double : Type 0) : Type 0 where
  pub deal_info_integer : DealInfoInteger.DealInfoInteger
  pub deal_info_double : DealInfoDouble.DealInfoDouble Double
  pub deal_info_string : DealInfoString.DealInfoString

pub record Fits {Double : Type 0} (x : DealInfo Double) : Type 0 where
  pub deal_info_integer : DealInfoInteger.Fits x.deal_info_integer

module _ (C : Codec) where
  unfoldable pub serialize : Serializer (DealInfo C.Double)
  serialize =
      member (DealInfoInteger.serialize C) (λ this. this.deal_info_integer)
        (λ this v. record this { deal_info_integer = v })
      ⨾ member (DealInfoDouble.serialize C) (λ this. this.deal_info_double)
          (λ this v. record this { deal_info_double = v })
      ⨾ member (DealInfoString.serialize C) (λ this. this.deal_info_string)
          (λ this v. record this { deal_info_string = v })

  -- Saved, and then loaded into whatever object stands at the other end, an object whose members
  -- fit arrives whole, and what follows it is left unread.
  pub mql5_deal_info-Arrives : (x : DealInfo C.Double) → Fits x → Arrives serialize x
  unfolding serialize
  mql5_deal_info-Arrives x fits =
      member-Transfers _ _ _ x refl (
        DealInfoInteger.mql5_deal_info_integer-Arrives C x.deal_info_integer fits.deal_info_integer)
      ⨟ member-Transfers _ _ _ x refl
          (DealInfoDouble.mql5_deal_info_double-Arrives C x.deal_info_double)
      ⨟ member-Transfers _ _ _ x refl
          (DealInfoString.mql5_deal_info_string-Arrives C x.deal_info_string)
