-- ===== src/Mql/Enums/AccountStopOutMode.antt =====
-- common/mql-cpp/enums.hpp, EnumAccountStopOutMode
use packet_distribution_syst.Prelude.{◌≡◌, refl, List, [], ◌∷◌, ℤ, pos, IsInt32, arith}
use packet_distribution_syst.Archive.Enumeration.{
  Enumeration, static_cast, IsUnnamed, static_cast_unnamed, to_int-static_cast,
}

pub data EnumAccountStopOutMode : Type 0 where
  account_stop_out_mode_percent account_stop_out_mode_money : EnumAccountStopOutMode
  unnamed : ℤ → EnumAccountStopOutMode

-- `static_cast<int>(e)`
abbrev pub to_int : EnumAccountStopOutMode → ℤ
to_int account_stop_out_mode_percent = pos 0
to_int account_stop_out_mode_money = pos 1
to_int (unnamed t) = t

abbrev pub enumerators : List EnumAccountStopOutMode
enumerators = account_stop_out_mode_percent ∷ account_stop_out_mode_money ∷ []

abbrev pub of_int : ℤ → EnumAccountStopOutMode
of_int = static_cast to_int enumerators unnamed

abbrev pub Fits : EnumAccountStopOutMode → Type 0
Fits (unnamed t) = IsUnnamed to_int enumerators t × IsInt32 t
Fits _ = Unit

pub of_int-to_int : (e : EnumAccountStopOutMode) → Fits e → of_int (to_int e) ≡ e
of_int-to_int account_stop_out_mode_percent _ = refl
of_int-to_int (unnamed t) (h, _) = static_cast_unnamed to_int enumerators unnamed t h
of_int-to_int _ _ = refl

pub to_int-IsInt32 : (e : EnumAccountStopOutMode) → Fits e → IsInt32 (to_int e)
to_int-IsInt32 account_stop_out_mode_percent _ = omega arith
to_int-IsInt32 (unnamed t) (_, h) = h
to_int-IsInt32 _ _ = omega arith

abbrev pub enum : Enumeration EnumAccountStopOutMode
enum = record {
  to_int = to_int;
  of_int = of_int;
  Fits = Fits;
  to_int-of_int = λ t. to_int-static_cast to_int enumerators unnamed t refl;
  of_int-to_int = of_int-to_int;
  to_int-IsInt32 = to_int-IsInt32;
}
