-- ===== src/Mql/Mql4/OrderInfo.antt =====
-- common/mql-cpp/trade-info.hpp, mql::mql4::OrderInfo
use packet_distribution_syst.Prelude.{IsInt32, refl, ℤ}
use packet_distribution_syst.Archive.{Codec, Serializer, member, primitive, ◌⨾◌, Bytes}
use packet_distribution_syst.Archive.Transfers.{Transfers, member-Transfers, primitive-Arrives, ◌⨟◌}
use packet_distribution_syst.Mql.DateTime
use packet_distribution_syst.Mql.DateTime.{MqlDateTime}

pub record OrderInfo (Double : Type 0) : Type 0 where
  pub close_price : Double
  pub close_time : MqlDateTime
  pub comment : Bytes
  pub commission : Double
  pub expiration : MqlDateTime
  pub lots : Double
  pub magic : ℤ
  pub open_price : Double
  pub open_time : MqlDateTime
  pub order_profit : Double
  pub stop_loss : Double
  pub swap : Double
  pub symbol : Bytes
  pub take_profit : Double
  pub ticket : ℤ
  pub type : ℤ

pub record Fits {Double : Type 0} (x : OrderInfo Double) : Type 0 where
  pub close_time : DateTime.Fits x.close_time
  pub expiration : DateTime.Fits x.expiration
  pub magic : IsInt32 x.magic
  pub open_time : DateTime.Fits x.open_time
  pub ticket : IsInt32 x.ticket
  pub type : IsInt32 x.type

module _ (C : Codec) where
  unfoldable pub serialize : Serializer (OrderInfo C.Double)
  serialize =
      member (primitive C.double) (λ this. this.close_price)
        (λ this v. record this { close_price = v })
      ⨾ member (DateTime.serialize C) (λ this. this.close_time)
          (λ this v. record this { close_time = v })
      ⨾ member (primitive C.text) (λ this. this.comment) (λ this v. record this { comment = v })
      ⨾ member (primitive C.double) (λ this. this.commission)
          (λ this v. record this { commission = v })
      ⨾ member (DateTime.serialize C) (λ this. this.expiration)
          (λ this v. record this { expiration = v })
      ⨾ member (primitive C.double) (λ this. this.lots) (λ this v. record this { lots = v })
      ⨾ member (primitive C.int32) (λ this. this.magic) (λ this v. record this { magic = v })
      ⨾ member (primitive C.double) (λ this. this.open_price)
          (λ this v. record this { open_price = v })
      ⨾ member (DateTime.serialize C) (λ this. this.open_time)
          (λ this v. record this { open_time = v })
      ⨾ member (primitive C.double) (λ this. this.order_profit)
          (λ this v. record this { order_profit = v })
      ⨾ member (primitive C.double) (λ this. this.stop_loss)
          (λ this v. record this { stop_loss = v })
      ⨾ member (primitive C.double) (λ this. this.swap) (λ this v. record this { swap = v })
      ⨾ member (primitive C.text) (λ this. this.symbol) (λ this v. record this { symbol = v })
      ⨾ member (primitive C.int32) (λ this. this.ticket) (λ this v. record this { ticket = v })
      ⨾ member (primitive C.int32) (λ this. this.type) (λ this v. record this { type = v })

  -- Saved, and then loaded into an object `y`, an object whose members fit arrives except for
  -- `take_profit`: there `y` keeps what it had. What follows is left unread.
  pub mql4_order_info-Transfers :
      (x : OrderInfo C.Double)
      → Fits x
      → Transfers serialize x (λ y. record x { take_profit = y.take_profit })
  unfolding serialize
  mql4_order_info-Transfers x fits =
      member-Transfers _ _ _ x refl (primitive-Arrives C.double x.close_price tt)
      ⨟ member-Transfers _ _ _ x refl (DateTime.date_time-Arrives C x.close_time fits.close_time)
      ⨟ member-Transfers _ _ _ x refl (primitive-Arrives C.text x.comment tt)
      ⨟ member-Transfers _ _ _ x refl (primitive-Arrives C.double x.commission tt)
      ⨟ member-Transfers _ _ _ x refl (DateTime.date_time-Arrives C x.expiration fits.expiration)
      ⨟ member-Transfers _ _ _ x refl (primitive-Arrives C.double x.lots tt)
      ⨟ member-Transfers _ _ _ x refl (primitive-Arrives C.int32 x.magic fits.magic)
      ⨟ member-Transfers _ _ _ x refl (primitive-Arrives C.double x.open_price tt)
      ⨟ member-Transfers _ _ _ x refl (DateTime.date_time-Arrives C x.open_time fits.open_time)
      ⨟ member-Transfers _ _ _ x refl (primitive-Arrives C.double x.order_profit tt)
      ⨟ member-Transfers _ _ _ x refl (primitive-Arrives C.double x.stop_loss tt)
      ⨟ member-Transfers _ _ _ x refl (primitive-Arrives C.double x.swap tt)
      ⨟ member-Transfers _ _ _ x refl (primitive-Arrives C.text x.symbol tt)
      ⨟ member-Transfers _ _ _ x refl (primitive-Arrives C.int32 x.ticket fits.ticket)
      ⨟ member-Transfers _ _ _ x refl (primitive-Arrives C.int32 x.type fits.type)
