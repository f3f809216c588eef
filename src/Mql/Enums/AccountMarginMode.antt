-- ===== src/Mql/Enums/AccountMarginMode.antt =====
-- common/mql-cpp/enums.hpp, EnumAccountMarginMode
use packet_distribution_syst.Prelude.{◌≡◌, refl, List, [], ◌∷◌, ℤ, pos, IsInt32, arith}
use packet_distribution_syst.Archive.Enumeration.{
  Enumeration, static_cast, IsUnnamed, static_cast_unnamed, to_int-static_cast,
}

pub data EnumAccountMarginMode : Type 0 where
  account_margin_mode_retail_netting account_margin_mode_exchange
        account_margin_mode_retail_hedging :
      EnumAccountMarginMode
  unnamed : ℤ → EnumAccountMarginMode

-- `static_cast<int>(e)`
abbrev pub to_int : EnumAccountMarginMode → ℤ
to_int account_margin_mode_retail_netting = pos 0
to_int account_margin_mode_exchange = pos 1
to_int account_margin_mode_retail_hedging = pos 2
to_int (unnamed t) = t

abbrev pub enumerators : List EnumAccountMarginMode
enumerators =
    account_margin_mode_retail_netting ∷ account_margin_mode_exchange
    ∷ account_margin_mode_retail_hedging ∷ []

abbrev pub of_int : ℤ → EnumAccountMarginMode
of_int = static_cast to_int enumerators unnamed

abbrev pub Fits : EnumAccountMarginMode → Type 0
Fits (unnamed t) = IsUnnamed to_int enumerators t × IsInt32 t
Fits _ = Unit

pub of_int-to_int : (e : EnumAccountMarginMode) → Fits e → of_int (to_int e) ≡ e
of_int-to_int account_margin_mode_retail_netting _ = refl
of_int-to_int (unnamed t) (h, _) = static_cast_unnamed to_int enumerators unnamed t h
of_int-to_int _ _ = refl

pub to_int-IsInt32 : (e : EnumAccountMarginMode) → Fits e → IsInt32 (to_int e)
to_int-IsInt32 account_margin_mode_retail_netting _ = omega arith
to_int-IsInt32 (unnamed t) (_, h) = h
to_int-IsInt32 _ _ = omega arith

abbrev pub enum : Enumeration EnumAccountMarginMode
enum = record {
  to_int = to_int;
  of_int = of_int;
  Fits = Fits;
  to_int-of_int = λ t. to_int-static_cast to_int enumerators unnamed t refl;
  of_int-to_int = of_int-to_int;
  to_int-IsInt32 = to_int-IsInt32;
}
