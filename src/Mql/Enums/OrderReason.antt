-- ===== src/Mql/Enums/OrderReason.antt =====
-- common/mql-cpp/enums.hpp, EnumOrderReason
use packet_distribution_syst.Prelude.{◌≡◌, refl, List, [], ◌∷◌, ℤ, pos, IsInt32, arith}
use packet_distribution_syst.Archive.Enumeration.{
  Enumeration, static_cast, IsUnnamed, static_cast_unnamed, to_int-static_cast,
}

pub data EnumOrderReason : Type 0 where
  order_reason_client order_reason_mobile order_reason_web order_reason_expert order_reason_sl
        order_reason_tp order_reason_so :
      EnumOrderReason
  unnamed : ℤ → EnumOrderReason

-- `static_cast<int>(e)`
abbrev pub to_int : EnumOrderReason → ℤ
to_int order_reason_client = pos 0
to_int order_reason_mobile = pos 1
to_int order_reason_web = pos 2
to_int order_reason_expert = pos 3
to_int order_reason_sl = pos 4
to_int order_reason_tp = pos 5
to_int order_reason_so = pos 6
to_int (unnamed t) = t

abbrev pub enumerators : List EnumOrderReason
enumerators =
    order_reason_client ∷ order_reason_mobile ∷ order_reason_web ∷ order_reason_expert
    ∷ order_reason_sl ∷ order_reason_tp ∷ order_reason_so ∷ []

abbrev pub of_int : ℤ → EnumOrderReason
of_int = static_cast to_int enumerators unnamed

abbrev pub Fits : EnumOrderReason → Type 0
Fits (unnamed t) = IsUnnamed to_int enumerators t × IsInt32 t
Fits _ = Unit

pub of_int-to_int : (e : EnumOrderReason) → Fits e → of_int (to_int e) ≡ e
of_int-to_int order_reason_client _ = refl
of_int-to_int (unnamed t) (h, _) = static_cast_unnamed to_int enumerators unnamed t h
of_int-to_int _ _ = refl

pub to_int-IsInt32 : (e : EnumOrderReason) → Fits e → IsInt32 (to_int e)
to_int-IsInt32 order_reason_client _ = omega arith
to_int-IsInt32 (unnamed t) (_, h) = h
to_int-IsInt32 _ _ = omega arith

abbrev pub enum : Enumeration EnumOrderReason
enum = record {
  to_int = to_int;
  of_int = of_int;
  Fits = Fits;
  to_int-of_int = λ t. to_int-static_cast to_int enumerators unnamed t refl;
  of_int-to_int = of_int-to_int;
  to_int-IsInt32 = to_int-IsInt32;
}
