-- ===== src/Mql/Mql5/AccountInfoDouble.antt =====
-- common/mql-cpp/account-info.hpp, mql::mql5::AccountInfoDouble
use packet_distribution_syst.Prelude.{refl}
use packet_distribution_syst.Archive.{Codec, Serializer, member, primitive, ◌⨾◌}
use packet_distribution_syst.Archive.Transfers.{Transfers, member-Transfers, primitive-Arrives, ◌⨟◌}
use packet_distribution_syst.Mql.Common.AccountInfoDouble as Base

pub record AccountInfoDouble (Double : Type 0) : Type 0 where
  pub account_info_double : Base.AccountInfoDouble Double
  pub margin_initial : Double
  pub margin_maintenance : Double
  pub assets : Double
  pub liabilities : Double
  pub commission_blocked : Double

module _ (C : Codec) where
  unfoldable pub serialize : Serializer (AccountInfoDouble C.Double)
  serialize =
      member (primitive C.double) (λ this. this.margin_initial)
        (λ this v. record this { margin_initial = v })
      ⨾ member (primitive C.double) (λ this. this.margin_maintenance)
          (λ this v. record this { margin_maintenance = v })
      ⨾ member (primitive C.double) (λ this. this.assets) (λ this v. record this { assets = v })
      ⨾ member (primitive C.double) (λ this. this.liabilities)
          (λ this v. record this { liabilities = v })
      ⨾ member (primitive C.double) (λ this. this.commission_blocked)
          (λ this v. record this { commission_blocked = v })

  -- Saved, and then loaded into an object `y`, any object arrives except for
  -- `account_info_double`: there `y` keeps what it had. What follows is left unread.
  pub mql5_account_info_double-Transfers :
      (x : AccountInfoDouble C.Double)
      → Transfers serialize x (λ y. record x { account_info_double = y.account_info_double })
  unfolding serialize
  mql5_account_info_double-Transfers x =
      member-Transfers _ _ _ x refl (primitive-Arrives C.double x.margin_initial tt)
      ⨟ member-Transfers _ _ _ x refl (primitive-Arrives C.double x.margin_maintenance tt)
      ⨟ member-Transfers _ _ _ x refl (primitive-Arrives C.double x.assets tt)
      ⨟ member-Transfers _ _ _ x refl (primitive-Arrives C.double x.liabilities tt)
      ⨟ member-Transfers _ _ _ x refl (primitive-Arrives C.double x.commission_blocked tt)
