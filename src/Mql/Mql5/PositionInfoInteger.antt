-- ===== src/Mql/Mql5/PositionInfoInteger.antt =====
-- common/mql-cpp/trade-info.hpp, mql::mql5::PositionInfoInteger
use packet_distribution_syst.Prelude.{IsInt64, refl, ℤ}
use packet_distribution_syst.Archive.{Codec, Serializer, member, primitive, ◌⨾◌}
use packet_distribution_syst.Archive.Transfers.{Arrives, member-Transfers, primitive-Arrives, ◌⨟◌}
use packet_distribution_syst.Archive.Enumeration.{enumeration, enumeration-Arrives}
use packet_distribution_syst.Mql.Enums.PositionType
use packet_distribution_syst.Mql.Enums.PositionReason
use packet_distribution_syst.Mql.Enums.PositionType.{EnumPositionType}
use packet_distribution_syst.Mql.Enums.PositionReason.{EnumPositionReason}
use packet_distribution_syst.Mql.DateTime
use packet_distribution_syst.Mql.DateTime.{MqlDateTime}

pub record PositionInfoInteger : Type 0 where
  pub ticket : ℤ
  pub open_time : MqlDateTime
  pub open_time_msc : ℤ
  pub time_update : MqlDateTime
  pub time_update_msc : ℤ
  pub type : EnumPositionType
  pub magic : ℤ
  pub identifier : ℤ
  pub reason : EnumPositionReason

pub record Fits (x : PositionInfoInteger) : Type 0 where
  pub ticket : IsInt64 x.ticket
  pub open_time : DateTime.Fits x.open_time
  pub open_time_msc : IsInt64 x.open_time_msc
  pub time_update : DateTime.Fits x.time_update
  pub time_update_msc : IsInt64 x.time_update_msc
  pub type : PositionType.Fits x.type
  pub magic : IsInt64 x.magic
  pub identifier : IsInt64 x.identifier
  pub reason : PositionReason.Fits x.reason

module _ (C : Codec) where
  unfoldable pub serialize : Serializer PositionInfoInteger
  serialize =
      member (primitive C.int64) (λ this. this.ticket) (λ this v. record this { ticket = v })
      ⨾ member (DateTime.serialize C) (λ this. this.open_time)
          (λ this v. record this { open_time = v })
      ⨾ member (primitive C.int64) (λ this. this.open_time_msc)
          (λ this v. record this { open_time_msc = v })
      ⨾ member (DateTime.serialize C) (λ this. this.time_update)
          (λ this v. record this { time_update = v })
      ⨾ member (primitive C.int64) (λ this. this.time_update_msc)
          (λ this v. record this { time_update_msc = v })
      ⨾ member (enumeration C PositionType.enum) (λ this. this.type)
          (λ this v. record this { type = v })
      ⨾ member (primitive C.int64) (λ this. this.magic) (λ this v. record this { magic = v })
      ⨾ member (primitive C.int64) (λ this. this.identifier)
          (λ this v. record this { identifier = v })
      ⨾ member (enumeration C PositionReason.enum) (λ this. this.reason)
          (λ this v. record this { reason = v })

  -- Saved, and then loaded into whatever object stands at the other end, an object whose members
  -- fit arrives whole, and what follows it is left unread.
  pub mql5_position_info_integer-Arrives : (x : PositionInfoInteger) → Fits x → Arrives serialize x
  unfolding serialize
  mql5_position_info_integer-Arrives x fits =
      member-Transfers _ _ _ x refl (primitive-Arrives C.int64 x.ticket fits.ticket)
      ⨟ member-Transfers _ _ _ x refl (DateTime.date_time-Arrives C x.open_time fits.open_time)
      ⨟ member-Transfers _ _ _ x refl (primitive-Arrives C.int64 x.open_time_msc fits.open_time_msc)
      ⨟ member-Transfers _ _ _ x refl (DateTime.date_time-Arrives C x.time_update fits.time_update)
      ⨟ member-Transfers _ _ _ x refl
          (primitive-Arrives C.int64 x.time_update_msc fits.time_update_msc)
      ⨟ member-Transfers _ _ _ x refl (enumeration-Arrives C PositionType.enum x.type fits.type)
      ⨟ member-Transfers _ _ _ x refl (primitive-Arrives C.int64 x.magic fits.magic)
      ⨟ member-Transfers _ _ _ x refl (primitive-Arrives C.int64 x.identifier fits.identifier)
      ⨟ member-Transfers _ _ _ x refl
          (enumeration-Arrives C PositionReason.enum x.reason fits.reason)
