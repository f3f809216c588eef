-- ===== src/Packets/Numbering/Wire.antt =====
-- The two numbers of a packet stand for it on the wire.
use mathlib.Core.Equiv.{◌≃◌, Iso, iso_to_equiv}
use mathlib.Core.HLevel.{Σ_prop_path}
use mathlib.Core.Logic.{∥∥₁_elim, ∥∥₁_prop}
use packet_distribution_syst.Prelude.{ℕ, ◌≡◌, refl, sym, ap, ◌∙◌, some}
use packet_distribution_syst.Packets.Catalogue.{PacketType, subsystem_id, packet_id}
use packet_distribution_syst.Packets.Numbering.{
  find, declared, find-subsystem_id, subsystem_id_injective,
}

abbrev pub number : PacketType → ℕ × ℕ
number p = (subsystem_id p, packet_id p)

-- Two numbers that some packet has; which one is forgotten.
abbrev pub Numbered : Type 0
Numbered = (n : ℕ × ℕ) × ∥ ((p : PacketType) × (number p ≡ n)) ∥₁

numbers-set : IsSet (ℕ × ℕ)
numbers-set = hlevel

same_number : (p q : PacketType) → number p ≡ number q → p ≡ q
same_number p q e = subsystem_id_injective p q (ap (λ n. n.0) e) (ap (λ n. n.1) e)

holder-prop : (n : ℕ × ℕ) → IsProp ((p : PacketType) × (number p ≡ n))
holder-prop n (p, e) (q, f) =
    Σ_prop_path (λ r. numbers-set (number r) n) (same_number p q (e ∙ sym f))

packet_of : (m : Numbered) → (p : PacketType) × (number p ≡ m.0)
packet_of (n, t) = ∥∥₁_elim t (holder-prop n) (λ h. h)

numbering : Iso PacketType Numbered
numbering = record {
  fun = λ p. (number p, ∣ (p, refl) ∣₁);
  inv = λ m. (packet_of m).0;
  rinv = λ m. Σ_prop_path (λ n. ∥∥₁_prop) (packet_of m).1;
  linv = λ p. same_number _ p (packet_of (number p, ∣ (p, refl) ∣₁)).1;
}

-- The packets are in one-to-one correspondence with the pairs of numbers that some packet has, by
-- their subsystem and number; and for each such pair the search among the declared packets finds the
-- packet of the correspondence.
pub packets_numbered :
    (e : PacketType ≃ Numbered) × ((p : PacketType) → (e.0 p).0 ≡ (subsystem_id p, packet_id p))
    × ((m : Numbered) → find m.0.0 m.0.1 declared ≡ some (e.1 m).0.0)
unfolding numbering
packets_numbered = (
  iso_to_equiv numbering,
  λ p. refl,
  λ m. let (p, e) = packet_of m in ap (λ n. find n.0 n.1 declared) (sym e) ∙ find-subsystem_id p,
)
