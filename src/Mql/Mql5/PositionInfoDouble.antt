-- ===== src/Mql/Mql5/PositionInfoDouble.antt =====
-- common/mql-cpp/trade-info.hpp, mql::mql5::PositionInfoDouble
use packet_distribution_syst.Prelude.{refl}
use packet_distribution_syst.Archive.{Codec, Serializer, member, primitive, ◌⨾◌}
use packet_distribution_syst.Archive.Transfers.{Arrives, member-Transfers, primitive-Arrives, ◌⨟◌}

pub record PositionInfoDouble (Double : Type 0) : Type 0 where
  pub volume : Double
  pub price_open : Double
  pub stop_loss : Double
  pub take_profit : Double
  pub price_current : Double
  pub swap : Double
  pub profit : Double

module _ (C : Codec) where
  unfoldable pub serialize : Serializer (PositionInfoDouble C.Double)
  serialize =
      member (primitive C.double) (λ this. this.volume) (λ this v. record this { volume = v })
      ⨾ member (primitive C.double) (λ this. this.price_open)
          (λ this v. record this { price_open = v })
      ⨾ member (primitive C.double) (λ this. this.stop_loss)
          (λ this v. record this { stop_loss = v })
      ⨾ member (primitive C.double) (λ this. this.take_profit)
          (λ this v. record this { take_profit = v })
      ⨾ member (primitive C.double) (λ this. this.price_current)
          (λ this v. record this { price_current = v })
      ⨾ member (primitive C.double) (λ this. this.swap) (λ this v. record this { swap = v })
      ⨾ member (primitive C.double) (λ this. this.profit) (λ this v. record this { profit = v })

  -- Saved, and then loaded into whatever object stands at the other end, any object arrives whole,
  -- and what follows it is left unread.
  pub mql5_position_info_double-Arrives : (x : PositionInfoDouble C.Double) → Arrives serialize x
  unfolding serialize
  mql5_position_info_double-Arrives x =
      member-Transfers _ _ _ x refl (primitive-Arrives C.double x.volume tt)
      ⨟ member-Transfers _ _ _ x refl (primitive-Arrives C.double x.price_open tt)
      ⨟ member-Transfers _ _ _ x refl (primitive-Arrives C.double x.stop_loss tt)
      ⨟ member-Transfers _ _ _ x refl (primitive-Arrives C.double x.take_profit tt)
      ⨟ member-Transfers _ _ _ x refl (primitive-Arrives C.double x.price_current tt)
      ⨟ member-Transfers _ _ _ x refl (primitive-Arrives C.double x.swap tt)
      ⨟ member-Transfers _ _ _ x refl (primitive-Arrives C.double x.profit tt)
