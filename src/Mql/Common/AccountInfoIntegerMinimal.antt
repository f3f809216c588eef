-- ===== src/Mql/Common/AccountInfoIntegerMinimal.antt =====
-- common/mql-cpp/account-info.hpp, mql::common::AccountInfoIntegerMinimal
use packet_distribution_syst.Prelude.{IsInt64, refl, ℤ}
use packet_distribution_syst.Archive.{Codec, Serializer, member, primitive, ◌⨾◌}
use packet_distribution_syst.Archive.Transfers.{Arrives, member-Transfers, primitive-Arrives, ◌⨟◌}

pub record AccountInfoIntegerMinimal : Type 0 where
  pub account_login : ℤ
  pub account_leverage : ℤ

pub record Fits (x : AccountInfoIntegerMinimal) : Type 0 where
  pub account_login : IsInt64 x.account_login
  pub account_leverage : IsInt64 x.account_leverage

module _ (C : Codec) where
  unfoldable pub serialize : Serializer AccountInfoIntegerMinimal
  serialize =
      member (primitive C.int64) (λ this. this.account_login)
        (λ this v. record this { account_login = v })
      ⨾ member (primitive C.int64) (λ this. this.account_leverage)
          (λ this v. record this { account_leverage = v })

  -- Saved, and then loaded into whatever object stands at the other end, an object whose members
  -- fit arrives whole, and what follows it is left unread.
  pub account_info_integer_minimal-Arrives :
      (x : AccountInfoIntegerMinimal) → Fits x → Arrives serialize x
  unfolding serialize
  account_info_integer_minimal-Arrives x fits =
      member-Transfers _ _ _ x refl (primitive-Arrives C.int64 x.account_login fits.account_login)
      ⨟ member-Transfers _ _ _ x refl
          (primitive-Arrives C.int64 x.account_leverage fits.account_leverage)
