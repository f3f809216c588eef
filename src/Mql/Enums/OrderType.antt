-- ===== src/Mql/Enums/OrderType.antt =====
-- common/mql-cpp/enums.hpp, EnumOrderType
use packet_distribution_syst.Prelude.{◌≡◌, refl, List, [], ◌∷◌, ℤ, pos, IsInt32, arith}
use packet_distribution_syst.Archive.Enumeration.{
  Enumeration, static_cast, IsUnnamed, static_cast_unnamed, to_int-static_cast,
}

pub data EnumOrderType : Type 0 where
  order_type_buy order_type_sell order_type_buy_limit order_type_sell_limit order_type_buy_stop
        order_type_sell_stop order_type_buy_stop_limit order_type_sell_stop_limit
        order_type_close_by :
      EnumOrderType
  unnamed : ℤ → EnumOrderType

-- `static_cast<int>(e)`
abbrev pub to_int : EnumOrderType → ℤ
to_int order_type_buy = pos 0
to_int order_type_sell = pos 1
to_int order_type_buy_limit = pos 2
to_int order_type_sell_limit = pos 3
to_int order_type_buy_stop = pos 4
to_int order_type_sell_stop = pos 5
to_int order_type_buy_stop_limit = pos 6
to_int order_type_sell_stop_limit = pos 7
to_int order_type_close_by = pos 8
to_int (unnamed t) = t

abbrev pub enumerators : List EnumOrderType
enumerators =
    order_type_buy ∷ order_type_sell ∷ order_type_buy_limit ∷ order_type_sell_limit
    ∷ order_type_buy_stop ∷ order_type_sell_stop ∷ order_type_buy_stop_limit
    ∷ order_type_sell_stop_limit ∷ order_type_close_by ∷ []

abbrev pub of_int : ℤ → EnumOrderType
of_int = static_cast to_int enumerators unnamed

abbrev pub Fits : EnumOrderType → Type 0
Fits (unnamed t) = IsUnnamed to_int enumerators t × IsInt32 t
Fits _ = Unit

pub of_int-to_int : (e : EnumOrderType) → Fits e → of_int (to_int e) ≡ e
of_int-to_int order_type_buy _ = refl
of_int-to_int (unnamed t) (h, _) = static_cast_unnamed to_int enumerators unnamed t h
of_int-to_int _ _ = refl

pub to_int-IsInt32 : (e : EnumOrderType) → Fits e → IsInt32 (to_int e)
to_int-IsInt32 order_type_buy _ = omega arith
to_int-IsInt32 (unnamed t) (_, h) = h
to_int-IsInt32 _ _ = omega arith

abbrev pub enum : Enumeration EnumOrderType
enum = record {
  to_int = to_int;
  of_int = of_int;
  Fits = Fits;
  to_int-of_int = λ t. to_int-static_cast to_int enumerators unnamed t refl;
  of_int-to_int = of_int-to_int;
  to_int-IsInt32 = to_int-IsInt32;
}
