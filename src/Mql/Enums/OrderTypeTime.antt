-- ===== src/Mql/Enums/OrderTypeTime.antt =====
-- common/mql-cpp/enums.hpp, EnumOrderTypeTime
use packet_distribution_syst.Prelude.{◌≡◌, refl, List, [], ◌∷◌, ℤ, pos, IsInt32, arith}
use packet_distribution_syst.Archive.Enumeration.{
  Enumeration, static_cast, IsUnnamed, static_cast_unnamed, to_int-static_cast,
}

pub data EnumOrderTypeTime : Type 0 where
  order_time_gtc order_time_day order_time_specified order_time_specified_day : EnumOrderTypeTime
  unnamed : ℤ → EnumOrderTypeTime

-- `static_cast<int>(e)`
abbrev pub to_int : EnumOrderTypeTime → ℤ
to_int order_time_gtc = pos 0
to_int order_time_day = pos 1
to_int order_time_specified = pos 2
to_int order_time_specified_day = pos 3
to_int (unnamed t) = t

abbrev pub enumerators : List EnumOrderTypeTime
enumerators = order_time_gtc ∷ order_time_day ∷ order_time_specified ∷ order_time_specified_day ∷ []

abbrev pub of_int : ℤ → EnumOrderTypeTime
of_int = static_cast to_int enumerators unnamed

abbrev pub Fits : EnumOrderTypeTime → Type 0
Fits (unnamed t) = IsUnnamed to_int enumerators t × IsInt32 t
Fits _ = Unit

pub of_int-to_int : (e : EnumOrderTypeTime) → Fits e → of_int (to_int e) ≡ e
of_int-to_int order_time_gtc _ = refl
of_int-to_int (unnamed t) (h, _) = static_cast_unnamed to_int enumerators unnamed t h
of_int-to_int _ _ = refl

pub to_int-IsInt32 : (e : EnumOrderTypeTime) → Fits e → IsInt32 (to_int e)
to_int-IsInt32 order_time_gtc _ = omega arith
to_int-IsInt32 (unnamed t) (_, h) = h
to_int-IsInt32 _ _ = omega arith

abbrev pub enum : Enumeration EnumOrderTypeTime
enum = record {
  to_int = to_int;
  of_int = of_int;
  Fits = Fits;
  to_int-of_int = λ t. to_int-static_cast to_int enumerators unnamed t refl;
  of_int-to_int = of_int-to_int;
  to_int-IsInt32 = to_int-IsInt32;
}
