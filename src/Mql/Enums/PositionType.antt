-- ===== src/Mql/Enums/PositionType.antt =====
-- common/mql-cpp/enums.hpp, EnumPositionType
use packet_distribution_syst.Prelude.{◌≡◌, refl, List, [], ◌∷◌, ℤ, pos, IsInt32, arith}
use packet_distribution_syst.Archive.Enumeration.{
  Enumeration, static_cast, IsUnnamed, static_cast_unnamed, to_int-static_cast,
}

pub data EnumPositionType : Type 0 where
  position_type_buy position_type_sell : EnumPositionType
  unnamed : ℤ → EnumPositionType

-- `static_cast<int>(e)`
abbrev pub to_int : EnumPositionType → ℤ
to_int position_type_buy = pos 0
to_int position_type_sell = pos 1
to_int (unnamed t) = t

abbrev pub enumerators : List EnumPositionType
enumerators = position_type_buy ∷ position_type_sell ∷ []

abbrev pub of_int : ℤ → EnumPositionType
of_int = static_cast to_int enumerators unnamed

abbrev pub Fits : EnumPositionType → Type 0
Fits (unnamed t) = IsUnnamed to_int enumerators t × IsInt32 t
Fits _ = Unit

pub of_int-to_int : (e : EnumPositionType) → Fits e → of_int (to_int e) ≡ e
of_int-to_int position_type_buy _ = refl
of_int-to_int (unnamed t) (h, _) = static_cast_unnamed to_int enumerators unnamed t h
of_int-to_int _ _ = refl

pub to_int-IsInt32 : (e : EnumPositionType) → Fits e → IsInt32 (to_int e)
to_int-IsInt32 position_type_buy _ = omega arith
to_int-IsInt32 (unnamed t) (_, h) = h
to_int-IsInt32 _ _ = omega arith

abbrev pub enum : Enumeration EnumPositionType
enum = record {
  to_int = to_int;
  of_int = of_int;
  Fits = Fits;
  to_int-of_int = λ t. to_int-static_cast to_int enumerators unnamed t refl;
  of_int-to_int = of_int-to_int;
  to_int-IsInt32 = to_int-IsInt32;
}
