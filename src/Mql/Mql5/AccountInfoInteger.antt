-- ===== src/Mql/Mql5/AccountInfoInteger.antt =====
-- common/mql-cpp/account-info.hpp, mql::mql5::AccountInfoInteger
use packet_distribution_syst.Prelude.{Bool, IsInt32, refl, ℤ}
use packet_distribution_syst.Archive.{Codec, Serializer, member, primitive, ◌⨾◌}
use packet_distribution_syst.Archive.Transfers.{Transfers, member-Transfers, primitive-Arrives, ◌⨟◌}
use packet_distribution_syst.Archive.Enumeration.{enumeration, enumeration-Arrives}
use packet_distribution_syst.Mql.Enums.AccountMarginMode
use packet_distribution_syst.Mql.Enums.AccountMarginMode.{EnumAccountMarginMode}
use packet_distribution_syst.Mql.Common.AccountInfoInteger as Base

pub record AccountInfoInteger : Type 0 where
  pub account_info_integer : Base.AccountInfoInteger
  pub margin_mode : EnumAccountMarginMode
  pub currency_digits : ℤ
  pub fifo_close : Bool
  pub hedge_allowed : Bool

pub record Fits (x : AccountInfoInteger) : Type 0 where
  pub account_info_integer : Base.Fits x.account_info_integer
  pub margin_mode : AccountMarginMode.Fits x.margin_mode
  pub currency_digits : IsInt32 x.currency_digits

module _ (C : Codec) where
  unfoldable pub serialize : Serializer AccountInfoInteger
  serialize =
      member (enumeration C AccountMarginMode.enum) (λ this. this.margin_mode)
        (λ this v. record this { margin_mode = v })
      ⨾ member (primitive C.int32) (λ this. this.currency_digits)
          (λ this v. record this { currency_digits = v })
      ⨾ member (primitive C.bool) (λ this. this.fifo_close)
          (λ this v. record this { fifo_close = v })
      ⨾ member (primitive C.bool) (λ this. this.hedge_allowed)
          (λ this v. record this { hedge_allowed = v })

  -- Saved, and then loaded into an object `y`, an object whose members fit arrives except for
  -- `account_info_integer`: there `y` keeps what it had. What follows is left unread.
  pub mql5_account_info_integer-Transfers :
      (x : AccountInfoInteger)
      → Fits x
      → Transfers serialize x (λ y. record x { account_info_integer = y.account_info_integer })
  unfolding serialize
  mql5_account_info_integer-Transfers x fits =
      member-Transfers _ _ _ x refl
        (enumeration-Arrives C AccountMarginMode.enum x.margin_mode fits.margin_mode)
      ⨟ member-Transfers _ _ _ x refl
          (primitive-Arrives C.int32 x.currency_digits fits.currency_digits)
      ⨟ member-Transfers _ _ _ x refl (primitive-Arrives C.bool x.fifo_close tt)
      ⨟ member-Transfers _ _ _ x refl (primitive-Arrives C.bool x.hedge_allowed tt)
