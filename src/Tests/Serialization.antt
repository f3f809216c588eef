-- ===== src/Tests/Serialization.antt =====
-- common/mql-cpp: trade data, dates and enumerations through an archive.
use packet_distribution_syst.Prelude.{[], ◌∷◌, pos, negsuc, arith}
use packet_distribution_syst.Archive.Enumeration.{enumeration, enumeration-Arrives}
use packet_distribution_syst.Archive.Transfers.{Transfers, Arrives}
use packet_distribution_syst.Mql.DateTime.{MqlDateTime}
use packet_distribution_syst.Mql.Enums.OrderType
use packet_distribution_syst.Mql.Enums.OrderState
use packet_distribution_syst.Mql.Enums.OrderTypeFilling
use packet_distribution_syst.Mql.Enums.OrderTypeTime
use packet_distribution_syst.Mql.Enums.OrderReason
use packet_distribution_syst.Mql.Mql4.OrderInfo as Mql4OrderInfo
use packet_distribution_syst.Mql.Mql5.OrderInfo
use packet_distribution_syst.Tests.Instances.{flat_codec}

abbrev some_time : MqlDateTime
some_time = record { count = pos 1690000000000 }

abbrev before_epoch : MqlDateTime
before_epoch = record { count = negsuc 999 }

abbrev order : OrderInfo.OrderInfo flat_codec.Double
order = record {
  order_info_integer = record {
    ticket = pos 77;
    time_setup = some_time;
    type = OrderType.order_type_sell_limit;
    state = OrderState.order_state_placed;
    time_expiration = before_epoch;
    time_done = some_time;
    time_setup_msc = pos 1690000000000;
    time_done_msc = pos 0;
    type_filling = OrderTypeFilling.order_filling_ioc;
    type_time = OrderTypeTime.order_time_day;
    magic = negsuc 4;
    reason = OrderReason.order_reason_expert;
    position_id = pos 5;
    position_by_id = pos 6;
  };
  order_info_double = record {
    volume_initial = 1;
    volume_current = 2;
    price_open = 3;
    stop_loss = 4;
    take_profit = 5;
    price_current = 6;
    stop_limit = 7;
  };
  order_info_string = record { symbol = b'E' ∷ b'U' ∷ []; comment = []; external_id = b'x' ∷ [] };
}

order-Fits : OrderInfo.Fits order
order-Fits = omega arith

mql5_order_info-Transfers_example : Transfers (OrderInfo.serialize flat_codec) order (λ y.
    record order {
      order_info_integer = record (order.order_info_integer) {
        type_filling = y.order_info_integer.type_filling;
        type_time = y.order_info_integer.type_time;
        reason = y.order_info_integer.reason;
      };
    })
mql5_order_info-Transfers_example = OrderInfo.mql5_order_info-Transfers flat_codec order order-Fits

abbrev pub mql4_order : Mql4OrderInfo.OrderInfo flat_codec.Double
mql4_order = record {
  close_price = 1;
  close_time = some_time;
  comment = b'c' ∷ [];
  commission = 2;
  expiration = before_epoch;
  lots = 3;
  magic = negsuc 41;
  open_price = 4;
  open_time = some_time;
  order_profit = 5;
  stop_loss = 6;
  swap = 7;
  symbol = b's' ∷ [];
  take_profit = 8;
  ticket = pos 77;
  type = pos 1;
}

pub mql4_order-Fits : Mql4OrderInfo.Fits mql4_order
mql4_order-Fits = omega arith

enumeration-Arrives_example :
    Arrives (enumeration flat_codec OrderState.enum) OrderState.order_state_request_cancel
enumeration-Arrives_example =
    enumeration-Arrives flat_codec OrderState.enum OrderState.order_state_request_cancel tt
