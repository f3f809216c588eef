-- ===== src/Packets/Parts.antt =====
-- The bases and the payload members of the packets that common/packets declares, and how each is
-- serialized.
pub mod Arrival
use packet_distribution_syst.Prelude.{ℕ, Bool, List, ℤ, some}
use packet_distribution_syst.Archive.{Bytes, Any, Primitive, Codec, Serializer, primitive}
use packet_distribution_syst.Archive.Layout.{Layout}
use packet_distribution_syst.NodeInfo.Disk
use packet_distribution_syst.Packets.Tag
use packet_distribution_syst.Mql.Common.AccountInfoDouble
use packet_distribution_syst.Mql.Common.AccountInfoString
use packet_distribution_syst.Mql.Common.AccountInfoInteger
use packet_distribution_syst.Mql.Common.AccountInfoDoubleMinimal
use packet_distribution_syst.Mql.Common.AccountInfoIntegerMinimal
use packet_distribution_syst.Mql.Common.AccountInfoMinimal
use packet_distribution_syst.Mql.Mql4.FullAccountInfo as Mql4FullAccountInfo
use packet_distribution_syst.Mql.Mql5.AccountInfoInteger as Mql5AccountInfoInteger
use packet_distribution_syst.Mql.Mql5.AccountInfoDouble as Mql5AccountInfoDouble
use packet_distribution_syst.Mql.Mql5.OrderInfoInteger as Mql5OrderInfoInteger
use packet_distribution_syst.Mql.Mql5.OrderInfoDouble as Mql5OrderInfoDouble
use packet_distribution_syst.Mql.Mql5.OrderInfoString as Mql5OrderInfoString
use packet_distribution_syst.Mql.Mql5.OrderInfo as Mql5OrderInfo
use packet_distribution_syst.Mql.Mql5.PositionInfoInteger as Mql5PositionInfoInteger
use packet_distribution_syst.Mql.Mql5.PositionInfoDouble as Mql5PositionInfoDouble
use packet_distribution_syst.Mql.Mql5.PositionInfoString as Mql5PositionInfoString
use packet_distribution_syst.Mql.Mql5.PositionInfo as Mql5PositionInfo
use packet_distribution_syst.Mql.Mql5.DealInfoInteger as Mql5DealInfoInteger
use packet_distribution_syst.Mql.Mql5.DealInfoDouble as Mql5DealInfoDouble
use packet_distribution_syst.Mql.Mql5.DealInfoString as Mql5DealInfoString
use packet_distribution_syst.Mql.Mql5.DealInfo as Mql5DealInfo
use packet_distribution_syst.Mql.Mql4.OrderInfo as Mql4OrderInfo

-- A base class, or the type of a payload member.
pub data Part : Type 0 where
  packet_tag : Part
  account_info_double : Part
  account_info_string : Part
  account_info_integer : Part
  account_info_double_minimal : Part
  account_info_integer_minimal : Part
  account_info_minimal : Part
  mql4_full_account_info : Part
  mql5_account_info_integer : Part
  mql5_account_info_double : Part
  mql5_order_info_integer : Part
  mql5_order_info_double : Part
  mql5_order_info_string : Part
  mql5_order_info : Part
  mql5_position_info_integer : Part
  mql5_position_info_double : Part
  mql5_position_info_string : Part
  mql5_position_info : Part
  mql5_deal_info_integer : Part
  mql5_deal_info_double : Part
  mql5_deal_info_string : Part
  mql5_deal_info : Part
  mql4_order_info : Part
  bool_member text_member byte_array_member int_member double_member uint64_member disks_member :
      Part

module _ (C : Codec) where
  unfoldable pub Object : Part → Type 0
  Object packet_tag = Tag.PacketTag
  Object account_info_double = AccountInfoDouble.AccountInfoDouble C.Double
  Object account_info_string = AccountInfoString.AccountInfoString
  Object account_info_integer = AccountInfoInteger.AccountInfoInteger
  Object account_info_double_minimal = AccountInfoDoubleMinimal.AccountInfoDoubleMinimal C.Double
  Object account_info_integer_minimal = AccountInfoIntegerMinimal.AccountInfoIntegerMinimal
  Object account_info_minimal = AccountInfoMinimal.AccountInfoMinimal C.Double
  Object mql4_full_account_info = Mql4FullAccountInfo.FullAccountInfo C.Double
  Object mql5_account_info_integer = Mql5AccountInfoInteger.AccountInfoInteger
  Object mql5_account_info_double = Mql5AccountInfoDouble.AccountInfoDouble C.Double
  Object mql5_order_info_integer = Mql5OrderInfoInteger.OrderInfoInteger
  Object mql5_order_info_double = Mql5OrderInfoDouble.OrderInfoDouble C.Double
  Object mql5_order_info_string = Mql5OrderInfoString.OrderInfoString
  Object mql5_order_info = Mql5OrderInfo.OrderInfo C.Double
  Object mql5_position_info_integer = Mql5PositionInfoInteger.PositionInfoInteger
  Object mql5_position_info_double = Mql5PositionInfoDouble.PositionInfoDouble C.Double
  Object mql5_position_info_string = Mql5PositionInfoString.PositionInfoString
  Object mql5_position_info = Mql5PositionInfo.PositionInfo C.Double
  Object mql5_deal_info_integer = Mql5DealInfoInteger.DealInfoInteger
  Object mql5_deal_info_double = Mql5DealInfoDouble.DealInfoDouble C.Double
  Object mql5_deal_info_string = Mql5DealInfoString.DealInfoString
  Object mql5_deal_info = Mql5DealInfo.DealInfo C.Double
  Object mql4_order_info = Mql4OrderInfo.OrderInfo C.Double
  Object bool_member = Bool
  Object text_member = Bytes
  Object byte_array_member = Bytes
  Object int_member = ℤ
  Object double_member = C.Double
  Object uint64_member = ℕ
  Object disks_member = List (Disk.DiskInfo C.Double)

module _ (C : Codec) (layout : Layout C) where
  unfoldable pub serialize_part : (k : Part) → Serializer (Object C k)
  unfolding Object
  serialize_part packet_tag = Tag.serialize C
  serialize_part account_info_double = AccountInfoDouble.serialize C
  serialize_part account_info_string = AccountInfoString.serialize C
  serialize_part account_info_integer = AccountInfoInteger.serialize C
  serialize_part account_info_double_minimal = AccountInfoDoubleMinimal.serialize C
  serialize_part account_info_integer_minimal = AccountInfoIntegerMinimal.serialize C
  serialize_part account_info_minimal = AccountInfoMinimal.serialize C
  serialize_part mql4_full_account_info = Mql4FullAccountInfo.serialize C
  serialize_part mql5_account_info_integer = Mql5AccountInfoInteger.serialize C
  serialize_part mql5_account_info_double = Mql5AccountInfoDouble.serialize C
  serialize_part mql5_order_info_integer = Mql5OrderInfoInteger.serialize C
  serialize_part mql5_order_info_double = Mql5OrderInfoDouble.serialize C
  serialize_part mql5_order_info_string = Mql5OrderInfoString.serialize C
  serialize_part mql5_order_info = Mql5OrderInfo.serialize C
  serialize_part mql5_position_info_integer = Mql5PositionInfoInteger.serialize C
  serialize_part mql5_position_info_double = Mql5PositionInfoDouble.serialize C
  serialize_part mql5_position_info_string = Mql5PositionInfoString.serialize C
  serialize_part mql5_position_info = Mql5PositionInfo.serialize C
  serialize_part mql5_deal_info_integer = Mql5DealInfoInteger.serialize C
  serialize_part mql5_deal_info_double = Mql5DealInfoDouble.serialize C
  serialize_part mql5_deal_info_string = Mql5DealInfoString.serialize C
  serialize_part mql5_deal_info = Mql5DealInfo.serialize C
  serialize_part mql4_order_info = Mql4OrderInfo.serialize C
  serialize_part bool_member = primitive C.bool
  serialize_part text_member = primitive C.text
  serialize_part byte_array_member = primitive layout.byte_array
  serialize_part int_member = primitive C.int32
  serialize_part double_member = primitive C.double
  serialize_part uint64_member = primitive C.uint64
  serialize_part disks_member =
      layout.vector (Disk.value_initialized layout.zero) (Disk.serialize C)
