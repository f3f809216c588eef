-- ===== src/Mql/Common/AccountInfoMinimal.antt =====
-- common/mql-cpp/account-info.hpp, mql::common::AccountInfoMinimal
use packet_distribution_syst.Prelude.{refl}
use packet_distribution_syst.Archive.{Codec, Serializer, member, ◌⨾◌}
use packet_distribution_syst.Archive.Transfers.{Arrives, member-Transfers, ◌⨟◌}
use packet_distribution_syst.Mql.Common.AccountInfoIntegerMinimal
use packet_distribution_syst.Mql.Common.AccountInfoDoubleMinimal
use packet_distribution_syst.Mql.Common.AccountInfoString

pub record AccountInfoMinimal (Double : Type 0) : Type 0 where
  pub account_info_integer_minimal : AccountInfoIntegerMinimal.AccountInfoIntegerMinimal
  pub account_info_double_minimal : AccountInfoDoubleMinimal.AccountInfoDoubleMinimal Double
  pub account_info_string : AccountInfoString.AccountInfoString

pub record Fits {Double : Type 0} (x : AccountInfoMinimal Double) : Type 0 where
  pub account_info_integer_minimal : AccountInfoIntegerMinimal.Fits x.account_info_integer_minimal

module _ (C : Codec) where
  unfoldable pub serialize : Serializer (AccountInfoMinimal C.Double)
  serialize =
      member (AccountInfoIntegerMinimal.serialize C) (λ this. this.account_info_integer_minimal)
        (λ this v. record this { account_info_integer_minimal = v })
      ⨾ member (AccountInfoDoubleMinimal.serialize C) (λ this. this.account_info_double_minimal)
          (λ this v. record this { account_info_double_minimal = v })
      ⨾ member (AccountInfoString.serialize C) (λ this. this.account_info_string)
          (λ this v. record this { account_info_string = v })

  -- Saved, and then loaded into whatever object stands at the other end, an object whose members
  -- fit arrives whole, and what follows it is left unread.
  pub account_info_minimal-Arrives :
      (x : AccountInfoMinimal C.Double) → Fits x → Arrives serialize x
  unfolding serialize
  account_info_minimal-Arrives x fits =
      member-Transfers _ _ _ x refl (
        AccountInfoIntegerMinimal.account_info_integer_minimal-Arrives C
          x.account_info_integer_minimal fits.account_info_integer_minimal)
      ⨟ member-Transfers _ _ _ x refl (
          AccountInfoDoubleMinimal.account_info_double_minimal-Arrives C
            x.account_info_double_minimal)
      ⨟ member-Transfers _ _ _ x refl
          (AccountInfoString.account_info_string-Arrives C x.account_info_string)
