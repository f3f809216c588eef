-- ===== src/Archive/Transfers.antt =====
-- What the other end receives: the proof rules for serializers.
use packet_distribution_syst.Prelude.{◌≡◌, refl, ap, ◌++◌, some, append_assoc}
use packet_distribution_syst.Archive.{
  Bytes, Primitive, Serializer, saving, loading, primitive, member, ◌⨾◌,
}

-- Saving `x` leaves it alone and appends some bytes; loading them into any object `y` gives
-- `received y`, and what follows them is left unread.
pub record Transfers {A : Type 0} (s : Serializer A) (x : A) (received : A → A) : Type 0 where
  pub encoding : Bytes
  pub saves : (out : Bytes) → s saving x out ≡ some (x, out ++ encoding)
  pub loads : (y : A) (rest : Bytes) → s loading y (encoding ++ rest) ≡ some (received y, rest)

-- The whole object arrives, whatever it is loaded into.
abbrev pub Arrives : {A : Type 0} → Serializer A → A → Type 0
Arrives s x = Transfers s x (λ _. x)

pub primitive-Arrives :
    {A : Type 0} {Fits : A → Type 0} (p : Primitive A Fits) (x : A)
    → Fits x
    → Arrives (primitive p) x
unfolding primitive
primitive-Arrives p x fits = record {
  encoding = p.put x;
  saves = λ out. refl;
  loads = λ y rest. p.get-put x rest fits;
}

pub member-Transfers :
    {S A : Type 0} (s : Serializer A) (read : S → A) (write : S → A → S) (x : S) {f : A → A}
    → write x (read x) ≡ x
    → Transfers s (read x) f
    → Transfers (member s read write) x (λ y. write y (f (read y)))
unfolding member
member-Transfers s read write x same t = record {
  encoding = t.encoding;
  saves = λ out. rw (t.saves out) (ap (λ w. some (w, out ++ t.encoding)) same);
  loads = λ y rest. rw (t.loads (read y) rest) refl;
}

infixr 6 ◌⨟◌
pub ◌⨟◌ :
    {S : Type 0} {s t : Serializer S} {x : S} {f g : S → S}
    → Transfers s x f
    → Transfers t x g
    → Transfers (s ⨾ t) x (λ y. g (f y))
unfolding ◌⨾◌
◌⨟◌ {s} {t} {x} {f} {g} a b = record {
  encoding = a.encoding ++ b.encoding;
  saves = λ out. rw (a.saves out, b.saves (out ++ a.encoding), append_assoc) refl;
  loads = λ y rest. rw (append_assoc, a.loads y (b.encoding ++ rest)) (b.loads (f y) rest);
}
