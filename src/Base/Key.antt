-- ===== src/Base/Key.antt =====
-- Keys of dictionaries: a Boolean test that decides equality, for texts, numbers and tuples of them.
use Prim.Native.Nat.{ℕ}
use Prim.Native.String.{String}
use mathlib.Core.Path.{◌≡◌, refl, ap}
use mathlib.Core.Logic.{◌↔◌}
use mathlib.Core.Bool.{Bool, true, ◌&&◌}
use native.Mathlib.Omega.{arith}
use text.Mathlib.Text.{◌==◌ as text_eq}
use text.Mathlib.TextEquality.{eq_iff}
use data_gateway.Base.Tests.{◌==◌ as nat_eq, ==_iff, and_parts}

pub record Key {ℓ} (K : Type ℓ) : Type ℓ where
  pub beq : K → K → Bool
  pub beq_iff : (a b : K) → (beq a b ≡ true) ↔ (a ≡ b)

instance abbrev pub ℕ_key : Key ℕ
ℕ_key = record { beq = nat_eq; beq_iff = ==_iff }

instance abbrev pub String_key : Key String
String_key = record { beq = text_eq; beq_iff = eq_iff }

module _ {ℓ κ} {K : Type ℓ} {L : Type κ} (k : Key K) (l : Key L) where
  abbrev pub pair_beq : K × L → K × L → Bool
  pair_beq (a, b) (c, d) = k.beq a c && l.beq b d

  pub pair_beq_iff : (p q : K × L) → (pair_beq p q ≡ true) ↔ (p ≡ q)
  pair_beq_iff (a, b) (c, d) = (
    λ h.
        let (ac, bd) = and_parts (k.beq a c) (l.beq b d) h in
        let p : a ≡ c = (k.beq_iff a c).0 ac in
        let q : b ≡ d = (l.beq_iff b d).0 bd in λ i. (p i, q i),
    λ e.
        let p : k.beq a c ≡ true = (k.beq_iff a c).1 (ap (λ (t : K × L). t.0) e) in
        let q : l.beq b d ≡ true = (l.beq_iff b d).1 (ap (λ (t : K × L). t.1) e) in ground arith,
  )

instance abbrev pub pair_key {ℓ κ} : {K : Type ℓ} {L : Type κ} ⦃k : Key K⦄ ⦃l : Key L⦄ → Key (K × L)
pair_key ⦃k⦄ ⦃l⦄ = record { beq = pair_beq k l; beq_iff = pair_beq_iff k l }

pub beq_refl {ℓ} : {K : Type ℓ} ⦃k : Key K⦄ (a : K) → k.beq a a ≡ true
beq_refl ⦃k⦄ a = (k.beq_iff a a).1 refl
