-- ===== src/Archive/Enumeration.antt =====
-- common/mql-cpp/enums.hpp, MQL_DECLARE_ENUM_SERIALIZE: a scoped enumeration crosses the archive as
-- the `int` behind it. Such an enumeration holds any `int`, so the model's types have a constructor
-- `unnamed` for the values that no enumerator names.
use packet_distribution_syst.Prelude.{
  ◌≡◌, refl, ap, ◌++◌, Bool, true, false, List, [], ◌∷◌, some, ℤ, pos, negsuc, IsInt32, ◌==◌,
  if◌then◌else◌, arith, Bool-cases, inl, inr,
}
use packet_distribution_syst.Archive.{Bytes, Codec, Serializer, saving, loading, primitive, ◌>>=◌}
use packet_distribution_syst.Archive.Transfers.{Arrives}

infix 50 ◌==ℤ◌
abbrev pub ◌==ℤ◌ : ℤ → ℤ → Bool
pos m ==ℤ pos n = m == n
negsuc m ==ℤ negsuc n = m == n
_ ==ℤ _ = false

pub ==ℤ→eq : (a b : ℤ) → (a ==ℤ b) ≡ true → a ≡ b
==ℤ→eq (pos m) (pos n) h = ground arith
==ℤ→eq (negsuc m) (negsuc n) h = ground arith
==ℤ→eq (pos m) (negsuc n) h = cc
==ℤ→eq (negsuc m) (pos n) h = cc

module _ {E : Type 0} (to_int : E → ℤ) where
  -- `static_cast<ENUM_TYPE>(t)`: the enumerator with the given value, if there is one.
  abbrev pub static_cast : List E → (ℤ → E) → ℤ → E
  static_cast [] unnamed t = unnamed t
  static_cast (e ∷ es) unnamed t = if to_int e ==ℤ t then e else static_cast es unnamed t

  -- No enumerator has this value.
  abbrev pub IsUnnamed : List E → ℤ → Type 0
  IsUnnamed [] t = Unit
  IsUnnamed (e ∷ es) t = ((to_int e ==ℤ t) ≡ false) × IsUnnamed es t

  pub to_int-static_cast :
      (es : List E) (unnamed : ℤ → E) (t : ℤ)
      → to_int (unnamed t) ≡ t
      → to_int (static_cast es unnamed t) ≡ t
  to_int-static_cast [] unnamed t h = h
  to_int-static_cast (e ∷ es) unnamed t h = elim (Bool-cases (to_int e ==ℤ t)) [
    | inl hit ↦ rw (hit, static_cast) (==ℤ→eq (to_int e) t hit)
    | inr miss ↦ rw (miss, static_cast) (to_int-static_cast es unnamed t h)
  ]

  pub static_cast_unnamed :
      (es : List E) (unnamed : ℤ → E) (t : ℤ)
      → IsUnnamed es t
      → static_cast es unnamed t ≡ unnamed t
  static_cast_unnamed [] unnamed t h = refl
  static_cast_unnamed (e ∷ es) unnamed t (miss, h) =
      rw (miss, static_cast) (static_cast_unnamed es unnamed t h)

-- An enumeration with its two casts. `Fits` holds of the values in normal form: an `unnamed` one is
-- an `int` that has no name.
pub record Enumeration (E : Type 0) : Type 1 where
  pub to_int : E → ℤ
  pub of_int : ℤ → E
  pub Fits : E → Type 0
  -- No value of `int` is lost, whether an enumerator names it or not.
  pub to_int-of_int : (t : ℤ) → to_int (of_int t) ≡ t
  pub of_int-to_int : (e : E) → Fits e → of_int (to_int e) ≡ e
  pub to_int-IsInt32 : (e : E) → Fits e → IsInt32 (to_int e)

module _ (C : Codec) {E : Type 0} (c : Enumeration E) where
  unfoldable pub enumeration : Serializer E
  enumeration saving e out =
      primitive C.int32 saving (c.to_int e) out >>= λ (t, out'). some (e, out')
  enumeration loading e input =
      primitive C.int32 loading (pos 0) input >>= λ (t, rest). some (c.of_int t, rest)

  -- Saved, and then loaded into whatever value stands at the other end, every value that the
  -- enumeration can hold arrives, named or not.
  pub enumeration-Arrives : (e : E) → c.Fits e → Arrives enumeration e
  unfolding enumeration primitive
  enumeration-Arrives e fits = record {
    encoding = C.int32.put (c.to_int e);
    saves = λ out. refl;
    loads = λ y rest.
        rw (C.int32.get-put (c.to_int e) rest (c.to_int-IsInt32 e fits), c.of_int-to_int e fits)
          refl;
  }

  -- An `int` that comes in is kept as the value of the enumeration, whether or not an enumerator
  -- names it, and goes out again as it came.
  pub enumeration_keeps_int :
      (t : ℤ) (y : E) (rest out : Bytes)
      → IsInt32 t
      → (enumeration loading y (C.int32.put t ++ rest) ≡ some (c.of_int t, rest))
        × (enumeration saving (c.of_int t) out ≡ some (c.of_int t, out ++ C.int32.put t))
  unfolding enumeration primitive
  enumeration_keeps_int t y rest out h = (
    rw (C.int32.get-put t rest h) refl,
    ap (λ n. some (c.of_int t, out ++ C.int32.put n)) (c.to_int-of_int t),
  )
