-- ===== src/Mql/Mql5/OrderInfoInteger.antt =====
-- common/mql-cpp/trade-info.hpp, mql::mql5::OrderInfoInteger
use packet_distribution_syst.Prelude.{IsInt64, refl, ℤ}
use packet_distribution_syst.Archive.{Codec, Serializer, member, primitive, ◌⨾◌}
use packet_distribution_syst.Archive.Transfers.{Transfers, member-Transfers, primitive-Arrives, ◌⨟◌}
use packet_distribution_syst.Archive.Enumeration.{enumeration, enumeration-Arrives}
use packet_distribution_syst.Mql.Enums.OrderType
use packet_distribution_syst.Mql.Enums.OrderState
use packet_distribution_syst.Mql.Enums.OrderTypeFilling
use packet_distribution_syst.Mql.Enums.OrderTypeTime
use packet_distribution_syst.Mql.Enums.OrderReason
use packet_distribution_syst.Mql.Enums.OrderType.{EnumOrderType}
use packet_distribution_syst.Mql.Enums.OrderState.{EnumOrderState}
use packet_distribution_syst.Mql.Enums.OrderTypeFilling.{EnumOrderTypeFilling}
use packet_distribution_syst.Mql.Enums.OrderTypeTime.{EnumOrderTypeTime}
use packet_distribution_syst.Mql.Enums.OrderReason.{EnumOrderReason}
use packet_distribution_syst.Mql.DateTime
use packet_distribution_syst.Mql.DateTime.{MqlDateTime}

pub record OrderInfoInteger : Type 0 where
  pub ticket : ℤ
  pub time_setup : MqlDateTime
  pub type : EnumOrderType
  pub state : EnumOrderState
  pub time_expiration : MqlDateTime
  pub time_done : MqlDateTime
  pub time_setup_msc : ℤ
  pub time_done_msc : ℤ
  pub type_filling : EnumOrderTypeFilling
  pub type_time : EnumOrderTypeTime
  pub magic : ℤ
  pub reason : EnumOrderReason
  pub position_id : ℤ
  pub position_by_id : ℤ

pub record Fits (x : OrderInfoInteger) : Type 0 where
  pub ticket : IsInt64 x.ticket
  pub time_setup : DateTime.Fits x.time_setup
  pub type : OrderType.Fits x.type
  pub state : OrderState.Fits x.state
  pub time_expiration : DateTime.Fits x.time_expiration
  pub time_done : DateTime.Fits x.time_done
  pub time_setup_msc : IsInt64 x.time_setup_msc
  pub time_done_msc : IsInt64 x.time_done_msc
  pub type_filling : OrderTypeFilling.Fits x.type_filling
  pub type_time : OrderTypeTime.Fits x.type_time
  pub magic : IsInt64 x.magic
  pub reason : OrderReason.Fits x.reason
  pub position_id : IsInt64 x.position_id
  pub position_by_id : IsInt64 x.position_by_id

module _ (C : Codec) where
  unfoldable pub serialize : Serializer OrderInfoInteger
  serialize =
      member (primitive C.int64) (λ this. this.ticket) (λ this v. record this { ticket = v })
      ⨾ member (DateTime.serialize C) (λ this. this.time_setup)
          (λ this v. record this { time_setup = v })
      ⨾ member (enumeration C OrderType.enum) (λ this. this.type)
          (λ this v. record this { type = v })
      ⨾ member (enumeration C OrderState.enum) (λ this. this.state)
          (λ this v. record this { state = v })
      ⨾ member (DateTime.serialize C) (λ this. this.time_expiration)
          (λ this v. record this { time_expiration = v })
      ⨾ member (DateTime.serialize C) (λ this. this.time_done)
          (λ this v. record this { time_done = v })
      ⨾ member (primitive C.int64) (λ this. this.time_setup_msc)
          (λ this v. record this { time_setup_msc = v })
      ⨾ member (primitive C.int64) (λ this. this.time_done_msc)
          (λ this v. record this { time_done_msc = v })
      ⨾ member (enumeration C OrderState.enum) (λ this. this.state)
          (λ this v. record this { state = v })
      ⨾ member (enumeration C OrderState.enum) (λ this. this.state)
          (λ this v. record this { state = v })
      ⨾ member (primitive C.int64) (λ this. this.magic) (λ this v. record this { magic = v })
      ⨾ member (enumeration C OrderState.enum) (λ this. this.state)
          (λ this v. record this { state = v })
      ⨾ member (primitive C.int64) (λ this. this.position_id)
          (λ this v. record this { position_id = v })
      ⨾ member (primitive C.int64) (λ this. this.position_by_id)
          (λ this v. record this { position_by_id = v })

  -- Saved, and then loaded into an object `y`, an object whose members fit arrives except for
  -- `type_filling`, `type_time`, `reason`: there `y` keeps what it had. What follows is left
  -- unread.
  pub mql5_order_info_integer-Transfers :
      (x : OrderInfoInteger)
      → Fits x
      → Transfers serialize x (λ y. record x {
        type_filling = y.type_filling;
        type_time = y.type_time;
        reason = y.reason;
      })
  unfolding serialize
  mql5_order_info_integer-Transfers x fits =
      member-Transfers _ _ _ x refl (primitive-Arrives C.int64 x.ticket fits.ticket)
      ⨟ member-Transfers _ _ _ x refl (DateTime.date_time-Arrives C x.time_setup fits.time_setup)
      ⨟ member-Transfers _ _ _ x refl (enumeration-Arrives C OrderType.enum x.type fits.type)
      ⨟ member-Transfers _ _ _ x refl (enumeration-Arrives C OrderState.enum x.state fits.state)
      ⨟ member-Transfers _ _ _ x refl
          (DateTime.date_time-Arrives C x.time_expiration fits.time_expiration)
      ⨟ member-Transfers _ _ _ x refl (DateTime.date_time-Arrives C x.time_done fits.time_done)
      ⨟ member-Transfers _ _ _ x refl
          (primitive-Arrives C.int64 x.time_setup_msc fits.time_setup_msc)
      ⨟ member-Transfers _ _ _ x refl (primitive-Arrives C.int64 x.time_done_msc fits.time_done_msc)
      ⨟ member-Transfers _ _ _ x refl (enumeration-Arrives C OrderState.enum x.state fits.state)
      ⨟ member-Transfers _ _ _ x refl (enumeration-Arrives C OrderState.enum x.state fits.state)
      ⨟ member-Transfers _ _ _ x refl (primitive-Arrives C.int64 x.magic fits.magic)
      ⨟ member-Transfers _ _ _ x refl (enumeration-Arrives C OrderState.enum x.state fits.state)
      ⨟ member-Transfers _ _ _ x refl (primitive-Arrives C.int64 x.position_id fits.position_id)
      ⨟ member-Transfers _ _ _ x refl
          (primitive-Arrives C.int64 x.position_by_id fits.position_by_id)
