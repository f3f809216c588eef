-- ===== src/Mql/Enums/OrderTypeFilling.antt =====
-- common/mql-cpp/enums.hpp, EnumOrderTypeFilling
use packet_distribution_syst.Prelude.{◌≡◌, refl, List, [], ◌∷◌, ℤ, pos, IsInt32, arith}
use packet_distribution_syst.Archive.Enumeration.{
  Enumeration, static_cast, IsUnnamed, static_cast_unnamed, to_int-static_cast,
}

pub data EnumOrderTypeFilling : Type 0 where
  order_filling_fok order_filling_ioc order_filling_boc order_filling_return : EnumOrderTypeFilling
  unnamed : ℤ → EnumOrderTypeFilling

-- `static_cast<int>(e)`
abbrev pub to_int : EnumOrderTypeFilling → ℤ
to_int order_filling_fok = pos 0
to_int order_filling_ioc = pos 1
to_int order_filling_boc = pos 2
to_int order_filling_return = pos 3
to_int (unnamed t) = t

abbrev pub enumerators : List EnumOrderTypeFilling
enumerators = order_filling_fok ∷ order_filling_ioc ∷ order_filling_boc ∷ order_filling_return ∷ []

abbrev pub of_int : ℤ → EnumOrderTypeFilling
of_int = static_cast to_int enumerators unnamed

abbrev pub Fits : EnumOrderTypeFilling → Type 0
Fits (unnamed t) = IsUnnamed to_int enumerators t × IsInt32 t
Fits _ = Unit

pub of_int-to_int : (e : EnumOrderTypeFilling) → Fits e → of_int (to_int e) ≡ e
of_int-to_int order_filling_fok _ = refl
of_int-to_int (unnamed t) (h, _) = static_cast_unnamed to_int enumerators unnamed t h
of_int-to_int _ _ = refl

pub to_int-IsInt32 : (e : EnumOrderTypeFilling) → Fits e → IsInt32 (to_int e)
to_int-IsInt32 order_filling_fok _ = omega arith
to_int-IsInt32 (unnamed t) (_, h) = h
to_int-IsInt32 _ _ = omega arith

abbrev pub enum : Enumeration EnumOrderTypeFilling
enum = record {
  to_int = to_int;
  of_int = of_int;
  Fits = Fits;
  to_int-of_int = λ t. to_int-static_cast to_int enumerators unnamed t refl;
  of_int-to_int = of_int-to_int;
  to_int-IsInt32 = to_int-IsInt32;
}
