-- ===== src/Archive/Layout.antt =====
-- What Boost and the packet macros of mal-packet-weaver do beyond primitive values: how the bases and
-- members of a packet, and the elements of a std::vector, follow one another in the archive.
use packet_distribution_syst.Prelude.{List, All}
use packet_distribution_syst.Archive.{Bytes, Any, Primitive, Serializer, Codec}
use packet_distribution_syst.Archive.Transfers.{Transfers, Arrives}

pub record Layout (C : Codec) : Type 1 where
  -- the double of value initialization
  pub zero : C.Double
  -- a mal_packet_weaver::ByteArray
  pub byte_array : Primitive Bytes Any
  pub nothing : Serializer (Unit {0})
  pub both : {A B : Type 0} → Serializer A → Serializer B → Serializer (A × B)
  -- Loading grows the vector by elements that stand as given, and then loads into each.
  pub vector : {A : Type 0} → A → Serializer A → Serializer (List A)
  -- Two parts are told apart, and a vector is read to its end.
  pub nothing-Arrives : (x : Unit {0}) → Arrives nothing x
  pub both-Transfers :
      {A B : Type 0} (s : Serializer A) (t : Serializer B) (x : A) (y : B) (f : A → A) (g : B → B)
      → Transfers s x f
      → Transfers t y g
      → Transfers (both s t) (x, y) (λ p. (f p.0, g p.1))
  pub vector-Arrives :
      {A : Type 0} (blank : A) (s : Serializer A) (xs : List A)
      → All (Arrives s) xs
      → Arrives (vector blank s) xs
