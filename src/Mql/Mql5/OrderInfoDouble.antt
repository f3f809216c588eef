-- ===== src/Mql/Mql5/OrderInfoDouble.antt =====
-- common/mql-cpp/trade-info.hpp, mql::mql5::OrderInfoDouble
use packet_distribution_syst.Prelude.{refl}
use packet_distribution_syst.Archive.{Codec, Serializer, member, primitive, ◌⨾◌}
use packet_distribution_syst.Archive.Transfers.{Arrives, member-Transfers, primitive-Arrives, ◌⨟◌}

pub record OrderInfoDouble (Double : Type 0) : Type 0 where
  pub volume_initial : Double
  pub volume_current : Double
  pub price_open : Double
  pub stop_loss : Double
  pub take_profit : Double
  pub price_current : Double
  pub stop_limit : Double

module _ (C : Codec) where
  unfoldable pub serialize : Serializer (OrderInfoDouble C.Double)
  serialize =
      member (primitive C.double) (λ this. this.volume_initial)
        (λ this v. record this { volume_initial = v })
      ⨾ member (primitive C.double) (λ this. this.volume_current)
          (λ this v. record this { volume_current = v })
      ⨾ member (primitive C.double) (λ this. this.price_open)
          (λ this v. record this { price_open = v })
      ⨾ member (primitive C.double) (λ this. this.stop_loss)
          (λ this v. record this { stop_loss = v })
      ⨾ member (primitive C.double) (λ this. this.take_profit)
          (λ this v. record this { take_profit = v })
      ⨾ member (primitive C.double) (λ this. this.price_current)
          (λ this v. record this { price_current = v })
      ⨾ member (primitive C.double) (λ this. this.stop_limit)
          (λ this v. record this { stop_limit = v })

  -- Saved, and then loaded into whatever object stands at the other end, any object arrives whole,
  -- and what follows it is left unread.
  pub mql5_order_info_double-Arrives : (x : OrderInfoDouble C.Double) → Arrives serialize x
  unfolding serialize
  mql5_order_info_double-Arrives x =
      member-Transfers _ _ _ x refl (primitive-Arrives C.double x.volume_initial tt)
      ⨟ member-Transfers _ _ _ x refl (primitive-Arrives C.double x.volume_current tt)
      ⨟ member-Transfers _ _ _ x refl (primitive-Arrives C.double x.price_open tt)
      ⨟ member-Transfers _ _ _ x refl (primitive-Arrives C.double x.stop_loss tt)
      ⨟ member-Transfers _ _ _ x refl (primitive-Arrives C.double x.take_profit tt)
      ⨟ member-Transfers _ _ _ x refl (primitive-Arrives C.double x.price_current tt)
      ⨟ member-Transfers _ _ _ x refl (primitive-Arrives C.double x.stop_limit tt)
