-- ===== src/Mql/Mql5/DealInfoInteger.antt =====
-- common/mql-cpp/trade-info.hpp, mql::mql5::DealInfoInteger
use packet_distribution_syst.Prelude.{IsInt64, refl, ℤ}
use packet_distribution_syst.Archive.{Codec, Serializer, member, primitive, ◌⨾◌}
use packet_distribution_syst.Archive.Transfers.{Arrives, member-Transfers, primitive-Arrives, ◌⨟◌}
use packet_distribution_syst.Archive.Enumeration.{enumeration, enumeration-Arrives}
use packet_distribution_syst.Mql.Enums.DealType
use packet_distribution_syst.Mql.Enums.DealEntry
use packet_distribution_syst.Mql.Enums.DealReason
use packet_distribution_syst.Mql.Enums.DealType.{EnumDealType}
use packet_distribution_syst.Mql.Enums.DealEntry.{EnumDealEntry}
use packet_distribution_syst.Mql.Enums.DealReason.{EnumDealReason}
use packet_distribution_syst.Mql.DateTime
use packet_distribution_syst.Mql.DateTime.{MqlDateTime}

pub record DealInfoInteger : Type 0 where
  pub ticket : ℤ
  pub order : ℤ
  pub time : MqlDateTime
  pub time_msc : ℤ
  pub type : EnumDealType
  pub entry : EnumDealEntry
  pub magic : ℤ
  pub reason : EnumDealReason
  pub position_id : ℤ

pub record Fits (x : DealInfoInteger) : Type 0 where
  pub ticket : IsInt64 x.ticket
  pub order : IsInt64 x.order
  pub time : DateTime.Fits x.time
  pub time_msc : IsInt64 x.time_msc
  pub type : DealType.Fits x.type
  pub entry : DealEntry.Fits x.entry
  pub magic : IsInt64 x.magic
  pub reason : DealReason.Fits x.reason
  pub position_id : IsInt64 x.position_id

module _ (C : Codec) where
  unfoldable pub serialize : Serializer DealInfoInteger
  serialize =
      member (primitive C.int64) (λ this. this.ticket) (λ this v. record this { ticket = v })
      ⨾ member (primitive C.int64) (λ this. this.order) (λ this v. record this { order = v })
      ⨾ member (DateTime.serialize C) (λ this. this.time) (λ this v. record this { time = v })
      ⨾ member (primitive C.int64) (λ this. this.time_msc) (λ this v. record this { time_msc = v })
      ⨾ member (enumeration C DealType.enum) (λ this. this.type)
          (λ this v. record this { type = v })
      ⨾ member (enumeration C DealEntry.enum) (λ this. this.entry)
          (λ this v. record this { entry = v })
      ⨾ member (primitive C.int64) (λ this. this.magic) (λ this v. record this { magic = v })
      ⨾ member (enumeration C DealReason.enum) (λ this. this.reason)
          (λ this v. record this { reason = v })
      ⨾ member (primitive C.int64) (λ this. this.position_id)
          (λ this v. record this { position_id = v })

  -- Saved, and then loaded into whatever object stands at the other end, an object whose members
  -- fit arrives whole, and what follows it is left unread.
  pub mql5_deal_info_integer-Arrives : (x : DealInfoInteger) → Fits x → Arrives serialize x
  unfolding serialize
  mql5_deal_info_integer-Arrives x fits =
      member-Transfers _ _ _ x refl (primitive-Arrives C.int64 x.ticket fits.ticket)
      ⨟ member-Transfers _ _ _ x refl (primitive-Arrives C.int64 x.order fits.order)
      ⨟ member-Transfers _ _ _ x refl (DateTime.date_time-Arrives C x.time fits.time)
      ⨟ member-Transfers _ _ _ x refl (primitive-Arrives C.int64 x.time_msc fits.time_msc)
      ⨟ member-Transfers _ _ _ x refl (enumeration-Arrives C DealType.enum x.type fits.type)
      ⨟ member-Transfers _ _ _ x refl (enumeration-Arrives C DealEntry.enum x.entry fits.entry)
      ⨟ member-Transfers _ _ _ x refl (primitive-Arrives C.int64 x.magic fits.magic)
      ⨟ member-Transfers _ _ _ x refl (enumeration-Arrives C DealReason.enum x.reason fits.reason)
      ⨟ member-Transfers _ _ _ x refl (primitive-Arrives C.int64 x.position_id fits.position_id)
