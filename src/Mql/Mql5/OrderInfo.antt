-- ===== src/Mql/Mql5/OrderInfo.antt =====
-- common/mql-cpp/trade-info.hpp, mql::mql5::OrderInfo
use packet_distribution_syst.Prelude.{refl}
use packet_distribution_syst.Archive.{Codec, Serializer, member, ◌⨾◌}
use packet_distribution_syst.Archive.Transfers.{Transfers, member-Transfers, ◌⨟◌}
use packet_distribution_syst.Mql.Mql5.OrderInfoInteger
use packet_distribution_syst.Mql.Mql5.OrderInfoDouble
use packet_distribution_syst.Mql.Mql5.OrderInfoString

pub record OrderInfo (Double : Type 0) : Type 0 where
  pub order_info_integer : OrderInfoInteger.OrderInfoInteger
  pub order_info_double : OrderInfoDouble.OrderInfoDouble Double
  pub order_info_string : OrderInfoString.OrderInfoString

pub record Fits {Double : Type 0} (x : OrderInfo Double) : Type 0 where
  pub order_info_integer : OrderInfoInteger.Fits x.order_info_integer

module _ (C : Codec) where
  unfoldable pub serialize : Serializer (OrderInfo C.Double)
  serialize =
      member (OrderInfoInteger.serialize C) (λ this. this.order_info_integer)
        (λ this v. record this { order_info_integer = v })
      ⨾ member (OrderInfoDouble.serialize C) (λ this. this.order_info_double)
          (λ this v. record this { order_info_double = v })
      ⨾ member (OrderInfoString.serialize C) (λ this. this.order_info_string)
          (λ this v. record this { order_info_string = v })

  -- Saved, and then loaded into an object `y`, an object whose members fit arrives except for
  -- `type_filling`, `type_time` and `reason` of OrderInfoInteger: there `y` keeps what it had.
  -- What follows is left unread.
  pub mql5_order_info-Transfers :
      (x : OrderInfo C.Double)
      → Fits x
      → Transfers serialize x (λ y. record x {
        order_info_integer = (record (x.order_info_integer) {
          type_filling = y.order_info_integer.type_filling;
          type_time = y.order_info_integer.type_time;
          reason = y.order_info_integer.reason;
        });
      })
  unfolding serialize
  mql5_order_info-Transfers x fits =
      member-Transfers _ _ _ x refl (
        OrderInfoInteger.mql5_order_info_integer-Transfers C x.order_info_integer
          fits.order_info_integer)
      ⨟ member-Transfers _ _ _ x refl
          (OrderInfoDouble.mql5_order_info_double-Arrives C x.order_info_double)
      ⨟ member-Transfers _ _ _ x refl
          (OrderInfoString.mql5_order_info_string-Arrives C x.order_info_string)
