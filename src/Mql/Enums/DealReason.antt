-- ===== src/Mql/Enums/DealReason.antt =====
-- common/mql-cpp/enums.hpp, EnumDealReason
use packet_distribution_syst.Prelude.{◌≡◌, refl, List, [], ◌∷◌, ℤ, pos, IsInt32, arith}
use packet_distribution_syst.Archive.Enumeration.{
  Enumeration, static_cast, IsUnnamed, static_cast_unnamed, to_int-static_cast,
}

pub data EnumDealReason : Type 0 where
  deal_reason_client deal_reason_mobile deal_reason_web deal_reason_expert deal_reason_sl
        deal_reason_tp deal_reason_so deal_reason_rollover deal_reason_v_margin deal_reason_split :
      EnumDealReason
  unnamed : ℤ → EnumDealReason

-- `static_cast<int>(e)`
abbrev pub to_int : EnumDealReason → ℤ
to_int deal_reason_client = pos 0
to_int deal_reason_mobile = pos 1
to_int deal_reason_web = pos 2
to_int deal_reason_expert = pos 3
to_int deal_reason_sl = pos 4
to_int deal_reason_tp = pos 5
to_int deal_reason_so = pos 6
to_int deal_reason_rollover = pos 7
to_int deal_reason_v_margin = pos 8
to_int deal_reason_split = pos 9
to_int (unnamed t) = t

abbrev pub enumerators : List EnumDealReason
enumerators =
    deal_reason_client ∷ deal_reason_mobile ∷ deal_reason_web ∷ deal_reason_expert ∷ deal_reason_sl
    ∷ deal_reason_tp ∷ deal_reason_so ∷ deal_reason_rollover ∷ deal_reason_v_margin
    ∷ deal_reason_split ∷ []

abbrev pub of_int : ℤ → EnumDealReason
of_int = static_cast to_int enumerators unnamed

abbrev pub Fits : EnumDealReason → Type 0
Fits (unnamed t) = IsUnnamed to_int enumerators t × IsInt32 t
Fits _ = Unit

pub of_int-to_int : (e : EnumDealReason) → Fits e → of_int (to_int e) ≡ e
of_int-to_int deal_reason_client _ = refl
of_int-to_int (unnamed t) (h, _) = static_cast_unnamed to_int enumerators unnamed t h
of_int-to_int _ _ = refl

pub to_int-IsInt32 : (e : EnumDealReason) → Fits e → IsInt32 (to_int e)
to_int-IsInt32 deal_reason_client _ = omega arith
to_int-IsInt32 (unnamed t) (_, h) = h
to_int-IsInt32 _ _ = omega arith

abbrev pub enum : Enumeration EnumDealReason
enum = record {
  to_int = to_int;
  of_int = of_int;
  Fits = Fits;
  to_int-of_int = λ t. to_int-static_cast to_int enumerators unnamed t refl;
  of_int-to_int = of_int-to_int;
  to_int-IsInt32 = to_int-IsInt32;
}
