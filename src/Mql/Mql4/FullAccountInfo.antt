-- ===== src/Mql/Mql4/FullAccountInfo.antt =====
-- common/mql-cpp/account-info.hpp, mql::mql4::FullAccountInfo
use packet_distribution_syst.Prelude.{refl}
use packet_distribution_syst.Archive.{Codec, Serializer, member, ◌⨾◌}
use packet_distribution_syst.Archive.Transfers.{Arrives, member-Transfers, ◌⨟◌}
use packet_distribution_syst.Mql.Common.AccountInfoInteger
use packet_distribution_syst.Mql.Common.AccountInfoDouble
use packet_distribution_syst.Mql.Common.AccountInfoString

pub record FullAccountInfo (Double : Type 0) : Type 0 where
  pub account_info_integer : AccountInfoInteger.AccountInfoInteger
  pub account_info_double : AccountInfoDouble.AccountInfoDouble Double
  pub account_info_string : AccountInfoString.AccountInfoString

pub record Fits {Double : Type 0} (x : FullAccountInfo Double) : Type 0 where
  pub account_info_integer : AccountInfoInteger.Fits x.account_info_integer

module _ (C : Codec) where
  unfoldable pub serialize : Serializer (FullAccountInfo C.Double)
  serialize =
      member (AccountInfoInteger.serialize C) (λ this. this.account_info_integer)
        (λ this v. record this { account_info_integer = v })
      ⨾ member (AccountInfoDouble.serialize C) (λ this. this.account_info_double)
          (λ this v. record this { account_info_double = v })
      ⨾ member (AccountInfoString.serialize C) (λ this. this.account_info_string)
          (λ this v. record this { account_info_string = v })

  -- Saved, and then loaded into whatever object stands at the other end, an object whose members
  -- fit arrives whole, and what follows it is left unread.
  pub mql4_full_account_info-Arrives : (x : FullAccountInfo C.Double) → Fits x → Arrives serialize x
  unfolding serialize
  mql4_full_account_info-Arrives x fits =
      member-Transfers _ _ _ x refl (
        AccountInfoInteger.account_info_integer-Arrives C x.account_info_integer
          fits.account_info_integer)
      ⨟ member-Transfers _ _ _ x refl
          (AccountInfoDouble.account_info_double-Arrives C x.account_info_double)
      ⨟ member-Transfers _ _ _ x refl
          (AccountInfoString.account_info_string-Arrives C x.account_info_string)
