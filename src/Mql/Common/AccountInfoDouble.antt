-- ===== src/Mql/Common/AccountInfoDouble.antt =====
-- common/mql-cpp/account-info.hpp, mql::common::AccountInfoDouble
use packet_distribution_syst.Prelude.{refl}
use packet_distribution_syst.Archive.{Codec, Serializer, member, primitive, ◌⨾◌}
use packet_distribution_syst.Archive.Transfers.{Arrives, member-Transfers, primitive-Arrives, ◌⨟◌}

pub record AccountInfoDouble (Double : Type 0) : Type 0 where
  pub balance : Double
  pub credit : Double
  pub profit : Double
  pub equity : Double
  pub margin : Double
  pub margin_free : Double
  pub margin_level : Double
  pub margin_so_call : Double
  pub margin_so_so : Double

module _ (C : Codec) where
  unfoldable pub serialize : Serializer (AccountInfoDouble C.Double)
  serialize =
      member (primitive C.double) (λ this. this.balance) (λ this v. record this { balance = v })
      ⨾ member (primitive C.double) (λ this. this.credit) (λ this v. record this { credit = v })
      ⨾ member (primitive C.double) (λ this. this.profit) (λ this v. record this { profit = v })
      ⨾ member (primitive C.double) (λ this. this.equity) (λ this v. record this { equity = v })
      ⨾ member (primitive C.double) (λ this. this.margin) (λ this v. record this { margin = v })
      ⨾ member (primitive C.double) (λ this. this.margin_free)
          (λ this v. record this { margin_free = v })
      ⨾ member (primitive C.double) (λ this. this.margin_level)
          (λ this v. record this { margin_level = v })
      ⨾ member (primitive C.double) (λ this. this.margin_so_call)
          (λ this v. record this { margin_so_call = v })
      ⨾ member (primitive C.double) (λ this. this.margin_so_so)
          (λ this v. record this { margin_so_so = v })

  -- Saved, and then loaded into whatever object stands at the other end, any object arrives whole,
  -- and what follows it is left unread.
  pub account_info_double-Arrives : (x : AccountInfoDouble C.Double) → Arrives serialize x
  unfolding serialize
  account_info_double-Arrives x =
      member-Transfers _ _ _ x refl (primitive-Arrives C.double x.balance tt)
      ⨟ member-Transfers _ _ _ x refl (primitive-Arrives C.double x.credit tt)
      ⨟ member-Transfers _ _ _ x refl (primitive-Arrives C.double x.profit tt)
      ⨟ member-Transfers _ _ _ x refl (primitive-Arrives C.double x.equity tt)
      ⨟ member-Transfers _ _ _ x refl (primitive-Arrives C.double x.margin tt)
      ⨟ member-Transfers _ _ _ x refl (primitive-Arrives C.double x.margin_free tt)
      ⨟ member-Transfers _ _ _ x refl (primitive-Arrives C.double x.margin_level tt)
      ⨟ member-Transfers _ _ _ x refl (primitive-Arrives C.double x.margin_so_call tt)
      ⨟ member-Transfers _ _ _ x refl (primitive-Arrives C.double x.margin_so_so tt)
