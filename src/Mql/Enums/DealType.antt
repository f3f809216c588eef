-- ===== src/Mql/Enums/DealType.antt =====
-- common/mql-cpp/enums.hpp, EnumDealType
use packet_distribution_syst.Prelude.{◌≡◌, refl, List, [], ◌∷◌, ℤ, pos, IsInt32, arith}
use packet_distribution_syst.Archive.Enumeration.{
  Enumeration, static_cast, IsUnnamed, static_cast_unnamed, to_int-static_cast,
}

pub data EnumDealType : Type 0 where
  deal_type_buy deal_type_sell deal_type_balance deal_type_credit deal_type_charge
        deal_type_correction deal_type_bonus deal_type_commission deal_type_commission_daily
        deal_type_commission_monthly deal_type_commission_agent_daily
        deal_type_commission_agent_monthly deal_type_interest deal_type_buy_canceled
        deal_type_sell_canceled deal_dividend deal_dividend_franked deal_tax :
      EnumDealType
  unnamed : ℤ → EnumDealType

-- `static_cast<int>(e)`
abbrev pub to_int : EnumDealType → ℤ
to_int deal_type_buy = pos 0
to_int deal_type_sell = pos 1
to_int deal_type_balance = pos 2
to_int deal_type_credit = pos 3
to_int deal_type_charge = pos 4
to_int deal_type_correction = pos 5
to_int deal_type_bonus = pos 6
to_int deal_type_commission = pos 7
to_int deal_type_commission_daily = pos 8
to_int deal_type_commission_monthly = pos 9
to_int deal_type_commission_agent_daily = pos 10
to_int deal_type_commission_agent_monthly = pos 11
to_int deal_type_interest = pos 12
to_int deal_type_buy_canceled = pos 13
to_int deal_type_sell_canceled = pos 14
to_int deal_dividend = pos 15
to_int deal_dividend_franked = pos 16
to_int deal_tax = pos 17
to_int (unnamed t) = t

abbrev pub enumerators : List EnumDealType
enumerators =
    deal_type_buy ∷ deal_type_sell ∷ deal_type_balance ∷ deal_type_credit ∷ deal_type_charge
    ∷ deal_type_correction ∷ deal_type_bonus ∷ deal_type_commission ∷ deal_type_commission_daily
    ∷ deal_type_commission_monthly ∷ deal_type_commission_agent_daily
    ∷ deal_type_commission_agent_monthly ∷ deal_type_interest ∷ deal_type_buy_canceled
    ∷ deal_type_sell_canceled ∷ deal_dividend ∷ deal_dividend_franked ∷ deal_tax ∷ []

abbrev pub of_int : ℤ → EnumDealType
of_int = static_cast to_int enumerators unnamed

abbrev pub Fits : EnumDealType → Type 0
Fits (unnamed t) = IsUnnamed to_int enumerators t × IsInt32 t
Fits _ = Unit

pub of_int-to_int : (e : EnumDealType) → Fits e → of_int (to_int e) ≡ e
of_int-to_int deal_type_buy _ = refl
of_int-to_int (unnamed t) (h, _) = static_cast_unnamed to_int enumerators unnamed t h
of_int-to_int _ _ = refl

pub to_int-IsInt32 : (e : EnumDealType) → Fits e → IsInt32 (to_int e)
to_int-IsInt32 deal_type_buy _ = omega arith
to_int-IsInt32 (unnamed t) (_, h) = h
to_int-IsInt32 _ _ = omega arith

abbrev pub enum : Enumeration EnumDealType
enum = record {
  to_int = to_int;
  of_int = of_int;
  Fits = Fits;
  to_int-of_int = λ t. to_int-static_cast to_int enumerators unnamed t refl;
  of_int-to_int = of_int-to_int;
  to_int-IsInt32 = to_int-IsInt32;
}
