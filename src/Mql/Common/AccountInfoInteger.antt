-- ===== src/Mql/Common/AccountInfoInteger.antt =====
-- common/mql-cpp/account-info.hpp, mql::common::AccountInfoInteger
use packet_distribution_syst.Prelude.{Bool, IsInt32, IsInt64, refl, ℤ}
use packet_distribution_syst.Archive.{Codec, Serializer, member, primitive, ◌⨾◌}
use packet_distribution_syst.Archive.Transfers.{Arrives, member-Transfers, primitive-Arrives, ◌⨟◌}
use packet_distribution_syst.Archive.Enumeration.{enumeration, enumeration-Arrives}
use packet_distribution_syst.Mql.Enums.AccountTradeMode
use packet_distribution_syst.Mql.Enums.AccountStopOutMode
use packet_distribution_syst.Mql.Enums.AccountTradeMode.{EnumAccountTradeMode}
use packet_distribution_syst.Mql.Enums.AccountStopOutMode.{EnumAccountStopOutMode}

pub record AccountInfoInteger : Type 0 where
  pub account_login : ℤ
  pub trade_mode : EnumAccountTradeMode
  pub account_leverage : ℤ
  pub limit_orders : ℤ
  pub margin_so_mode : EnumAccountStopOutMode
  pub trade_allowed : Bool
  pub expert_trade_allowed : Bool

pub record Fits (x : AccountInfoInteger) : Type 0 where
  pub account_login : IsInt64 x.account_login
  pub trade_mode : AccountTradeMode.Fits x.trade_mode
  pub account_leverage : IsInt64 x.account_leverage
  pub limit_orders : IsInt32 x.limit_orders
  pub margin_so_mode : AccountStopOutMode.Fits x.margin_so_mode

module _ (C : Codec) where
  unfoldable pub serialize : Serializer AccountInfoInteger
  serialize =
      member (primitive C.int64) (λ this. this.account_login)
        (λ this v. record this { account_login = v })
      ⨾ member (enumeration C AccountTradeMode.enum) (λ this. this.trade_mode)
          (λ this v. record this { trade_mode = v })
      ⨾ member (primitive C.int64) (λ this. this.account_leverage)
          (λ this v. record this { account_leverage = v })
      ⨾ member (primitive C.int32) (λ this. this.limit_orders)
          (λ this v. record this { limit_orders = v })
      ⨾ member (enumeration C AccountStopOutMode.enum) (λ this. this.margin_so_mode)
          (λ this v. record this { margin_so_mode = v })
      ⨾ member (primitive C.bool) (λ this. this.trade_allowed)
          (λ this v. record this { trade_allowed = v })
      ⨾ member (primitive C.bool) (λ this. this.expert_trade_allowed)
          (λ this v. record this { expert_trade_allowed = v })

  -- Saved, and then loaded into whatever object stands at the other end, an object whose members
  -- fit arrives whole, and what follows it is left unread.
  pub account_info_integer-Arrives : (x : AccountInfoInteger) → Fits x → Arrives serialize x
  unfolding serialize
  account_info_integer-Arrives x fits =
      member-Transfers _ _ _ x refl (primitive-Arrives C.int64 x.account_login fits.account_login)
      ⨟ member-Transfers _ _ _ x refl
          (enumeration-Arrives C AccountTradeMode.enum x.trade_mode fits.trade_mode)
      ⨟ member-Transfers _ _ _ x refl
          (primitive-Arrives C.int64 x.account_leverage fits.account_leverage)
      ⨟ member-Transfers _ _ _ x refl (primitive-Arrives C.int32 x.limit_orders fits.limit_orders)
      ⨟ member-Transfers _ _ _ x refl
          (enumeration-Arrives C AccountStopOutMode.enum x.margin_so_mode fits.margin_so_mode)
      ⨟ member-Transfers _ _ _ x refl (primitive-Arrives C.bool x.trade_allowed tt)
      ⨟ member-Transfers _ _ _ x refl (primitive-Arrives C.bool x.expert_trade_allowed tt)
