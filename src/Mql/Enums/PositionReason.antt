-- ===== src/Mql/Enums/PositionReason.antt =====
-- common/mql-cpp/enums.hpp, EnumPositionReason
use packet_distribution_syst.Prelude.{◌≡◌, refl, List, [], ◌∷◌, ℤ, pos, IsInt32, arith}
use packet_distribution_syst.Archive.Enumeration.{
  Enumeration, static_cast, IsUnnamed, static_cast_unnamed, to_int-static_cast,
}

pub data EnumPositionReason : Type 0 where
  position_reason_client position_reason_mobile position_reason_web position_reason_expert :
      EnumPositionReason
  unnamed : ℤ → EnumPositionReason

-- `static_cast<int>(e)`
abbrev pub to_int : EnumPositionReason → ℤ
to_int position_reason_client = pos 0
to_int position_reason_mobile = pos 1
to_int position_reason_web = pos 2
to_int position_reason_expert = pos 3
to_int (unnamed t) = t

abbrev pub enumerators : List EnumPositionReason
enumerators =
    position_reason_client ∷ position_reason_mobile ∷ position_reason_web ∷ position_reason_expert
    ∷ []

abbrev pub of_int : ℤ → EnumPositionReason
of_int = static_cast to_int enumerators unnamed

abbrev pub Fits : EnumPositionReason → Type 0
Fits (unnamed t) = IsUnnamed to_int enumerators t × IsInt32 t
Fits _ = Unit

pub of_int-to_int : (e : EnumPositionReason) → Fits e → of_int (to_int e) ≡ e
of_int-to_int position_reason_client _ = refl
of_int-to_int (unnamed t) (h, _) = static_cast_unnamed to_int enumerators unnamed t h
of_int-to_int _ _ = refl

pub to_int-IsInt32 : (e : EnumPositionReason) → Fits e → IsInt32 (to_int e)
to_int-IsInt32 position_reason_client _ = omega arith
to_int-IsInt32 (unnamed t) (_, h) = h
to_int-IsInt32 _ _ = omega arith

abbrev pub enum : Enumeration EnumPositionReason
enum = record {
  to_int = to_int;
  of_int = of_int;
  Fits = Fits;
  to_int-of_int = λ t. to_int-static_cast to_int enumerators unnamed t refl;
  of_int-to_int = of_int-to_int;
  to_int-IsInt32 = to_int-IsInt32;
}
