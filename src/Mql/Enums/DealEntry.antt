-- ===== src/Mql/Enums/DealEntry.antt =====
-- common/mql-cpp/enums.hpp, EnumDealEntry
use packet_distribution_syst.Prelude.{◌≡◌, refl, List, [], ◌∷◌, ℤ, pos, IsInt32, arith}
use packet_distribution_syst.Archive.Enumeration.{
  Enumeration, static_cast, IsUnnamed, static_cast_unnamed, to_int-static_cast,
}

pub data EnumDealEntry : Type 0 where
  deal_entry_in deal_entry_out deal_entry_in_out deal_entry_out_by : EnumDealEntry
  unnamed : ℤ → EnumDealEntry

-- `static_cast<int>(e)`
abbrev pub to_int : EnumDealEntry → ℤ
to_int deal_entry_in = pos 0
to_int deal_entry_out = pos 1
to_int deal_entry_in_out = pos 2
to_int deal_entry_out_by = pos 3
to_int (unnamed t) = t

abbrev pub enumerators : List EnumDealEntry
enumerators = deal_entry_in ∷ deal_entry_out ∷ deal_entry_in_out ∷ deal_entry_out_by ∷ []

abbrev pub of_int : ℤ → EnumDealEntry
of_int = static_cast to_int enumerators unnamed

abbrev pub Fits : EnumDealEntry → Type 0
Fits (unnamed t) = IsUnnamed to_int enumerators t × IsInt32 t
Fits _ = Unit

pub of_int-to_int : (e : EnumDealEntry) → Fits e → of_int (to_int e) ≡ e
of_int-to_int deal_entry_in _ = refl
of_int-to_int (unnamed t) (h, _) = static_cast_unnamed to_int enumerators unnamed t h
of_int-to_int _ _ = refl

pub to_int-IsInt32 : (e : EnumDealEntry) → Fits e → IsInt32 (to_int e)
to_int-IsInt32 deal_entry_in _ = omega arith
to_int-IsInt32 (unnamed t) (_, h) = h
to_int-IsInt32 _ _ = omega arith

abbrev pub enum : Enumeration EnumDealEntry
enum = record {
  to_int = to_int;
  of_int = of_int;
  Fits = Fits;
  to_int-of_int = λ t. to_int-static_cast to_int enumerators unnamed t refl;
  of_int-to_int = of_int-to_int;
  to_int-IsInt32 = to_int-IsInt32;
}
