-- ===== src/Mql/Enums/OrderState.antt =====
-- common/mql-cpp/enums.hpp, EnumOrderState
use packet_distribution_syst.Prelude.{◌≡◌, refl, List, [], ◌∷◌, ℤ, pos, IsInt32, arith}
use packet_distribution_syst.Archive.Enumeration.{
  Enumeration, static_cast, IsUnnamed, static_cast_unnamed, to_int-static_cast,
}

pub data EnumOrderState : Type 0 where
  order_state_started order_state_placed order_state_canceled order_state_partial order_state_filled
        order_state_rejected order_state_expired order_state_request_add order_state_request_modify
        order_state_request_cancel :
      EnumOrderState
  unnamed : ℤ → EnumOrderState

-- `static_cast<int>(e)`
abbrev pub to_int : EnumOrderState → ℤ
to_int order_state_started = pos 0
to_int order_state_placed = pos 1
to_int order_state_canceled = pos 2
to_int order_state_partial = pos 3
to_int order_state_filled = pos 4
to_int order_state_rejected = pos 5
to_int order_state_expired = pos 6
to_int order_state_request_add = pos 7
to_int order_state_request_modify = pos 8
to_int order_state_request_cancel = pos 9
to_int (unnamed t) = t

abbrev pub enumerators : List EnumOrderState
enumerators =
    order_state_started ∷ order_state_placed ∷ order_state_canceled ∷ order_state_partial
    ∷ order_state_filled ∷ order_state_rejected ∷ order_state_expired ∷ order_state_request_add
    ∷ order_state_request_modify ∷ order_state_request_cancel ∷ []

abbrev pub of_int : ℤ → EnumOrderState
of_int = static_cast to_int enumerators unnamed

abbrev pub Fits : EnumOrderState → Type 0
Fits (unnamed t) = IsUnnamed to_int enumerators t × IsInt32 t
Fits _ = Unit

pub of_int-to_int : (e : EnumOrderState) → Fits e → of_int (to_int e) ≡ e
of_int-to_int order_state_started _ = refl
of_int-to_int (unnamed t) (h, _) = static_cast_unnamed to_int enumerators unnamed t h
of_int-to_int _ _ = refl

pub to_int-IsInt32 : (e : EnumOrderState) → Fits e → IsInt32 (to_int e)
to_int-IsInt32 order_state_started _ = omega arith
to_int-IsInt32 (unnamed t) (_, h) = h
to_int-IsInt32 _ _ = omega arith

abbrev pub enum : Enumeration EnumOrderState
enum = record {
  to_int = to_int;
  of_int = of_int;
  Fits = Fits;
  to_int-of_int = λ t. to_int-static_cast to_int enumerators unnamed t refl;
  of_int-to_int = of_int-to_int;
  to_int-IsInt32 = to_int-IsInt32;
}
