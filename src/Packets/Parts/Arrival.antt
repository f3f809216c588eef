-- ===== src/Packets/Parts/Arrival.antt =====
-- What arrives of a base or a member.
use packet_distribution_syst.Prelude.{
  ◌≡◌, refl, Bool, true, false, List, [], ◌∷◌, All, IsInt32, IsUint64,
}
use mathlib.Core.Bool.{false≢true}
use packet_distribution_syst.Archive.{Codec}
use packet_distribution_syst.Archive.Layout.{Layout}
use packet_distribution_syst.Archive.Transfers.{Transfers, Arrives, primitive-Arrives}
use packet_distribution_syst.NodeInfo.Disk
use packet_distribution_syst.Packets.Tag
use packet_distribution_syst.Mql.Common.AccountInfoDouble
use packet_distribution_syst.Mql.Common.AccountInfoString
use packet_distribution_syst.Mql.Common.AccountInfoInteger
use packet_distribution_syst.Mql.Common.AccountInfoDoubleMinimal
use packet_distribution_syst.Mql.Common.AccountInfoIntegerMinimal
use packet_distribution_syst.Mql.Common.AccountInfoMinimal
use packet_distribution_syst.Mql.Mql4.FullAccountInfo as Mql4FullAccountInfo
use packet_distribution_syst.Mql.Mql5.AccountInfoInteger as Mql5AccountInfoInteger
use packet_distribution_syst.Mql.Mql5.AccountInfoDouble as Mql5AccountInfoDouble
use packet_distribution_syst.Mql.Mql5.OrderInfoInteger as Mql5OrderInfoInteger
use packet_distribution_syst.Mql.Mql5.OrderInfoDouble as Mql5OrderInfoDouble
use packet_distribution_syst.Mql.Mql5.OrderInfoString as Mql5OrderInfoString
use packet_distribution_syst.Mql.Mql5.OrderInfo as Mql5OrderInfo
use packet_distribution_syst.Mql.Mql5.PositionInfoInteger as Mql5PositionInfoInteger
use packet_distribution_syst.Mql.Mql5.PositionInfoDouble as Mql5PositionInfoDouble
use packet_distribution_syst.Mql.Mql5.PositionInfoString as Mql5PositionInfoString
use packet_distribution_syst.Mql.Mql5.PositionInfo as Mql5PositionInfo
use packet_distribution_syst.Mql.Mql5.DealInfoInteger as Mql5DealInfoInteger
use packet_distribution_syst.Mql.Mql5.DealInfoDouble as Mql5DealInfoDouble
use packet_distribution_syst.Mql.Mql5.DealInfoString as Mql5DealInfoString
use packet_distribution_syst.Mql.Mql5.DealInfo as Mql5DealInfo
use packet_distribution_syst.Mql.Mql4.OrderInfo as Mql4OrderInfo
use packet_distribution_syst.Packets.Parts.{
  Part, packet_tag, account_info_double, account_info_string, account_info_integer,
  account_info_double_minimal, account_info_integer_minimal, account_info_minimal,
  mql4_full_account_info, mql5_account_info_integer, mql5_account_info_double,
  mql5_order_info_integer, mql5_order_info_double, mql5_order_info_string, mql5_order_info,
  mql5_position_info_integer, mql5_position_info_double, mql5_position_info_string,
  mql5_position_info, mql5_deal_info_integer, mql5_deal_info_double, mql5_deal_info_string,
  mql5_deal_info, mql4_order_info, bool_member, text_member, byte_array_member, int_member,
  double_member, uint64_member, disks_member, Object, serialize_part,
}

module _ (C : Codec) where
  -- A value that the types of the members can hold.
  unfoldable pub PartFits : (k : Part) → Object C k → Type 0
  unfolding Object
  PartFits packet_tag x = IsUint64 x.uid
  PartFits account_info_integer x = AccountInfoInteger.Fits x
  PartFits account_info_integer_minimal x = AccountInfoIntegerMinimal.Fits x
  PartFits account_info_minimal x = AccountInfoMinimal.Fits x
  PartFits mql4_full_account_info x = Mql4FullAccountInfo.Fits x
  PartFits mql5_account_info_integer x = Mql5AccountInfoInteger.Fits x
  PartFits mql5_order_info_integer x = Mql5OrderInfoInteger.Fits x
  PartFits mql5_order_info x = Mql5OrderInfo.Fits x
  PartFits mql5_position_info_integer x = Mql5PositionInfoInteger.Fits x
  PartFits mql5_position_info x = Mql5PositionInfo.Fits x
  PartFits mql5_deal_info_integer x = Mql5DealInfoInteger.Fits x
  PartFits mql5_deal_info x = Mql5DealInfo.Fits x
  PartFits mql4_order_info x = Mql4OrderInfo.Fits x
  PartFits int_member x = IsInt32 x
  PartFits uint64_member x = IsUint64 x
  PartFits _ x = Unit

  -- What an object that stood at `y` holds when `x` has been loaded into it.
  unfoldable pub arrived_part : (k : Part) → Object C k → Object C k → Object C k
  unfolding Object
  arrived_part mql5_account_info_integer x y = record x {
    account_info_integer = y.account_info_integer;
  }
  arrived_part mql5_account_info_double x y = record x {
    account_info_double = y.account_info_double;
  }
  arrived_part mql5_order_info_integer x y = record x {
    type_filling = y.type_filling;
    type_time = y.type_time;
    reason = y.reason;
  }
  arrived_part mql5_order_info x y = record x {
    order_info_integer = record (x.order_info_integer) {
      type_filling = y.order_info_integer.type_filling;
      type_time = y.order_info_integer.type_time;
      reason = y.order_info_integer.reason;
    };
  }
  arrived_part mql4_order_info x y = record x { take_profit = y.take_profit }
  arrived_part _ x y = x

-- The serializer brings every member.
unfoldable pub complete : Part → Bool
complete mql5_account_info_integer = false
complete mql5_account_info_double = false
complete mql5_order_info_integer = false
complete mql5_order_info = false
complete mql4_order_info = false
complete _ = true

pub arrived_part-complete :
    (C : Codec) (k : Part) (x y : Object C k) → complete k ≡ true → arrived_part C k x y ≡ x
unfolding arrived_part complete
arrived_part-complete C packet_tag x y e = refl
arrived_part-complete C account_info_double x y e = refl
arrived_part-complete C account_info_string x y e = refl
arrived_part-complete C account_info_integer x y e = refl
arrived_part-complete C account_info_double_minimal x y e = refl
arrived_part-complete C account_info_integer_minimal x y e = refl
arrived_part-complete C account_info_minimal x y e = refl
arrived_part-complete C mql4_full_account_info x y e = refl
arrived_part-complete C mql5_account_info_integer x y e = absurd (false≢true e)
arrived_part-complete C mql5_account_info_double x y e = absurd (false≢true e)
arrived_part-complete C mql5_order_info_integer x y e = absurd (false≢true e)
arrived_part-complete C mql5_order_info_double x y e = refl
arrived_part-complete C mql5_order_info_string x y e = refl
arrived_part-complete C mql5_order_info x y e = absurd (false≢true e)
arrived_part-complete C mql5_position_info_integer x y e = refl
arrived_part-complete C mql5_position_info_double x y e = refl
arrived_part-complete C mql5_position_info_string x y e = refl
arrived_part-complete C mql5_position_info x y e = refl
arrived_part-complete C mql5_deal_info_integer x y e = refl
arrived_part-complete C mql5_deal_info_double x y e = refl
arrived_part-complete C mql5_deal_info_string x y e = refl
arrived_part-complete C mql5_deal_info x y e = refl
arrived_part-complete C mql4_order_info x y e = absurd (false≢true e)
arrived_part-complete C bool_member x y e = refl
arrived_part-complete C text_member x y e = refl
arrived_part-complete C byte_array_member x y e = refl
arrived_part-complete C int_member x y e = refl
arrived_part-complete C double_member x y e = refl
arrived_part-complete C uint64_member x y e = refl
arrived_part-complete C disks_member x y e = refl

module _ (C : Codec) (layout : Layout C) where
  disks-Arrives : (disks : List (Disk.DiskInfo C.Double)) → All (Arrives (Disk.serialize C)) disks
  disks-Arrives [] = tt
  disks-Arrives (disk ∷ disks) = (Disk.disk_info-Arrives C disk, disks-Arrives disks)

  pub serialize_part-Transfers :
      (k : Part) (x : Object C k)
      → PartFits C k x
      → Transfers (serialize_part C layout k) x (arrived_part C k x)
  unfolding Object serialize_part PartFits arrived_part
  serialize_part-Transfers packet_tag x fits = Tag.packet_tag-Arrives C x fits
  serialize_part-Transfers account_info_double x fits =
      AccountInfoDouble.account_info_double-Arrives C x
  serialize_part-Transfers account_info_string x fits =
      AccountInfoString.account_info_string-Arrives C x
  serialize_part-Transfers account_info_integer x fits =
      AccountInfoInteger.account_info_integer-Arrives C x fits
  serialize_part-Transfers account_info_double_minimal x fits =
      AccountInfoDoubleMinimal.account_info_double_minimal-Arrives C x
  serialize_part-Transfers account_info_integer_minimal x fits =
      AccountInfoIntegerMinimal.account_info_integer_minimal-Arrives C x fits
  serialize_part-Transfers account_info_minimal x fits =
      AccountInfoMinimal.account_info_minimal-Arrives C x fits
  serialize_part-Transfers mql4_full_account_info x fits =
      Mql4FullAccountInfo.mql4_full_account_info-Arrives C x fits
  serialize_part-Transfers mql5_account_info_integer x fits =
      Mql5AccountInfoInteger.mql5_account_info_integer-Transfers C x fits
  serialize_part-Transfers mql5_account_info_double x fits =
      Mql5AccountInfoDouble.mql5_account_info_double-Transfers C x
  serialize_part-Transfers mql5_order_info_integer x fits =
      Mql5OrderInfoInteger.mql5_order_info_integer-Transfers C x fits
  serialize_part-Transfers mql5_order_info_double x fits =
      Mql5OrderInfoDouble.mql5_order_info_double-Arrives C x
  serialize_part-Transfers mql5_order_info_string x fits =
      Mql5OrderInfoString.mql5_order_info_string-Arrives C x
  serialize_part-Transfers mql5_order_info x fits = Mql5OrderInfo.mql5_order_info-Transfers C x fits
  serialize_part-Transfers mql5_position_info_integer x fits =
      Mql5PositionInfoInteger.mql5_position_info_integer-Arrives C x fits
  serialize_part-Transfers mql5_position_info_double x fits =
      Mql5PositionInfoDouble.mql5_position_info_double-Arrives C x
  serialize_part-Transfers mql5_position_info_string x fits =
      Mql5PositionInfoString.mql5_position_info_string-Arrives C x
  serialize_part-Transfers mql5_position_info x fits =
      Mql5PositionInfo.mql5_position_info-Arrives C x fits
  serialize_part-Transfers mql5_deal_info_integer x fits =
      Mql5DealInfoInteger.mql5_deal_info_integer-Arrives C x fits
  serialize_part-Transfers mql5_deal_info_double x fits =
      Mql5DealInfoDouble.mql5_deal_info_double-Arrives C x
  serialize_part-Transfers mql5_deal_info_string x fits =
      Mql5DealInfoString.mql5_deal_info_string-Arrives C x
  serialize_part-Transfers mql5_deal_info x fits = Mql5DealInfo.mql5_deal_info-Arrives C x fits
  serialize_part-Transfers mql4_order_info x fits = Mql4OrderInfo.mql4_order_info-Transfers C x fits
  serialize_part-Transfers bool_member x fits = primitive-Arrives C.bool x tt
  serialize_part-Transfers text_member x fits = primitive-Arrives C.text x tt
  serialize_part-Transfers byte_array_member x fits = primitive-Arrives layout.byte_array x tt
  serialize_part-Transfers int_member x fits = primitive-Arrives C.int32 x fits
  serialize_part-Transfers double_member x fits = primitive-Arrives C.double x tt
  serialize_part-Transfers uint64_member x fits = primitive-Arrives C.uint64 x fits
  serialize_part-Transfers disks_member x fits =
      layout.vector-Arrives (Disk.value_initialized layout.zero) (Disk.serialize C) x
        (disks-Arrives x)
