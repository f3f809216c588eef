-- ===== src/Mql/Common/AccountInfoDoubleMinimal.antt =====
-- common/mql-cpp/account-info.hpp, mql::common::AccountInfoDoubleMinimal
use packet_distribution_syst.Prelude.{refl}
use packet_distribution_syst.Archive.{Codec, Serializer, member, primitive, ◌⨾◌}
use packet_distribution_syst.Archive.Transfers.{Arrives, member-Transfers, primitive-Arrives, ◌⨟◌}

pub record AccountInfoDoubleMinimal (Double : Type 0) : Type 0 where
  pub balance : Double
  pub profit : Double
  pub equity : Double
  pub margin : Double
  pub margin_free : Double

module _ (C : Codec) where
  unfoldable pub serialize : Serializer (AccountInfoDoubleMinimal C.Double)
  serialize =
      member (primitive C.double) (λ this. this.balance) (λ this v. record this { balance = v })
      ⨾ member (primitive C.double) (λ this. this.profit) (λ this v. record this { profit = v })
      ⨾ member (primitive C.double) (λ this. this.equity) (λ this v. record this { equity = v })
      ⨾ member (primitive C.double) (λ this. this.margin) (λ this v. record this { margin = v })
      ⨾ member (primitive C.double) (λ this. this.margin_free)
          (λ this v. record this { margin_free = v })

  -- Saved, and then loaded into whatever object stands at the other end, any object arrives whole,
  -- and what follows it is left unread.
  pub account_info_double_minimal-Arrives :
      (x : AccountInfoDoubleMinimal C.Double) → Arrives serialize x
  unfolding serialize
  account_info_double_minimal-Arrives x =
      member-Transfers _ _ _ x refl (primitive-Arrives C.double x.balance tt)
      ⨟ member-Transfers _ _ _ x refl (primitive-Arrives C.double x.profit tt)
      ⨟ member-Transfers _ _ _ x refl (primitive-Arrives C.double x.equity tt)
      ⨟ member-Transfers _ _ _ x refl (primitive-Arrives C.double x.margin tt)
      ⨟ member-Transfers _ _ _ x refl (primitive-Arrives C.double x.margin_free tt)
