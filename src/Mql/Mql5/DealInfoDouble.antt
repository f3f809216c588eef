-- ===== src/Mql/Mql5/DealInfoDouble.antt =====
-- common/mql-cpp/trade-info.hpp, mql::mql5::DealInfoDouble
use packet_distribution_syst.Prelude.{refl}
use packet_distribution_syst.Archive.{Codec, Serializer, member, primitive, ◌⨾◌}
use packet_distribution_syst.Archive.Transfers.{Arrives, member-Transfers, primitive-Arrives, ◌⨟◌}

pub record DealInfoDouble (Double : Type 0) : Type 0 where
  pub volume : Double
  pub price : Double
  pub commission : Double
  pub swap : Double
  pub profit : Double
  pub fee : Double
  pub stop_loss : Double
  pub take_profit : Double

module _ (C : Codec) where
  unfoldable pub serialize : Serializer (DealInfoDouble C.Double)
  serialize =
      member (primitive C.double) (λ this. this.volume) (λ this v. record this { volume = v })
      ⨾ member (primitive C.double) (λ this. this.price) (λ this v. record this { price = v })
      ⨾ member (primitive C.double) (λ this. this.commission)
          (λ this v. record this { commission = v })
      ⨾ member (primitive C.double) (λ this. this.swap) (λ this v. record this { swap = v })
      ⨾ member (primitive C.double) (λ this. this.profit) (λ this v. record this { profit = v })
      ⨾ member (primitive C.double) (λ this. this.fee) (λ this v. record this { fee = v })
      ⨾ member (primitive C.double) (λ this. this.stop_loss)
          (λ this v. record this { stop_loss = v })
      ⨾ member (primitive C.double) (λ this. this.take_profit)
          (λ this v. record this { take_profit = v })

  -- Saved, and then loaded into whatever object stands at the other end, any object arrives whole,
  -- and what follows it is left unread.
  pub mql5_deal_info_double-Arrives : (x : DealInfoDouble C.Double) → Arrives serialize x
  unfolding serialize
  mql5_deal_info_double-Arrives x =
      member-Transfers _ _ _ x refl (primitive-Arrives C.double x.volume tt)
      ⨟ member-Transfers _ _ _ x refl (primitive-Arrives C.double x.price tt)
      ⨟ member-Transfers _ _ _ x refl (primitive-Arrives C.double x.commission tt)
      ⨟ member-Transfers _ _ _ x refl (primitive-Arrives C.double x.swap tt)
      ⨟ member-Transfers _ _ _ x refl (primitive-Arrives C.double x.profit tt)
      ⨟ member-Transfers _ _ _ x refl (primitive-Arrives C.double x.fee tt)
      ⨟ member-Transfers _ _ _ x refl (primitive-Arrives C.double x.stop_loss tt)
      ⨟ member-Transfers _ _ _ x refl (primitive-Arrives C.double x.take_profit tt)
