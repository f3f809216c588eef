-- ===== src/Mql/Enums/AccountTradeMode.antt =====
-- common/mql-cpp/enums.hpp, EnumAccountTradeMode
use packet_distribution_syst.Prelude.{◌≡◌, refl, List, [], ◌∷◌, ℤ, pos, IsInt32, arith}
use packet_distribution_syst.Archive.Enumeration.{
  Enumeration, static_cast, IsUnnamed, static_cast_unnamed, to_int-static_cast,
}

pub data EnumAccountTradeMode : Type 0 where
  account_trade_mode_demo account_trade_mode_contest account_trade_mode_real : EnumAccountTradeMode
  unnamed : ℤ → EnumAccountTradeMode

-- `static_cast<int>(e)`
abbrev pub to_int : EnumAccountTradeMode → ℤ
to_int account_trade_mode_demo = pos 0
to_int account_trade_mode_contest = pos 1
to_int account_trade_mode_real = pos 2
to_int (unnamed t) = t

abbrev pub enumerators : List EnumAccountTradeMode
enumerators = account_trade_mode_demo ∷ account_trade_mode_contest ∷ account_trade_mode_real ∷ []

abbrev pub of_int : ℤ → EnumAccountTradeMode
of_int = static_cast to_int enumerators unnamed

abbrev pub Fits : EnumAccountTradeMode → Type 0
Fits (unnamed t) = IsUnnamed to_int enumerators t × IsInt32 t
Fits _ = Unit

pub of_int-to_int : (e : EnumAccountTradeMode) → Fits e → of_int (to_int e) ≡ e
of_int-to_int account_trade_mode_demo _ = refl
of_int-to_int (unnamed t) (h, _) = static_cast_unnamed to_int enumerators unnamed t h
of_int-to_int _ _ = refl

pub to_int-IsInt32 : (e : EnumAccountTradeMode) → Fits e → IsInt32 (to_int e)
to_int-IsInt32 account_trade_mode_demo _ = omega arith
to_int-IsInt32 (unnamed t) (_, h) = h
to_int-IsInt32 _ _ = omega arith

abbrev pub enum : Enumeration EnumAccountTradeMode
enum = record {
  to_int = to_int;
  of_int = of_int;
  Fits = Fits;
  to_int-of_int = λ t. to_int-static_cast to_int enumerators unnamed t refl;
  of_int-to_int = of_int-to_int;
  to_int-IsInt32 = to_int-IsInt32;
}
