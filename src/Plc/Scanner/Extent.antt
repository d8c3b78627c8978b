-- ===== src/Plc/Scanner/Extent.antt =====
-- How far the groups of `_read_groups` in src/twin/plc/runtime.py reach.
use data_gateway.Base.{
  ℕ, min, max, ◌≡◌, refl, ap, subst, ◌∙◌, ◌≢◌, inl, inr, false, Option, none, some, List, [], ◌∷◌,
  arith, ◌==◌, if◌then◌else◌, ==_iff, Bool-cases, Option-cases,
}
use data_gateway.Base.Dict.{Dict, get, get-put_self, get-put_ne}
use data_gateway.Base.Key.{ℕ_key}
use data_gateway.Config.{fc_of}
use data_gateway.Plc.Scanner.{Slot, slot_lo, slot_hi, widen, groups_of}

-- The smallest range that has both.
abbrev hull : Option (ℕ × ℕ) → Option (ℕ × ℕ) → Option (ℕ × ℕ)
hull none r = r
hull (some q) none = some q
hull (some (a, b)) (some (c, d)) = some (min a c, max b d)

hull_assoc : (p q r : Option (ℕ × ℕ)) → hull (hull p q) r ≡ hull p (hull q r)
hull_assoc none q r = refl
hull_assoc (some p) none r = refl
hull_assoc (some p) (some q) none = refl
hull_assoc (some (a, b)) (some (c, d)) (some (e, f)) =
    let lo : min (min a c) e ≡ min a (min c e) = omega arith in
    let hi : max (max b d) f ≡ max b (max d f) = omega arith in rw (lo, hi) refl

hull-none : (q : Option (ℕ × ℕ)) → q ≡ hull q none
hull-none none = refl
hull-none (some q) = refl

-- The range of a slot, if it is of the function code.
abbrev own_range : ℕ → Slot → Option (ℕ × ℕ)
own_range fc s = if fc_of s.reg == fc then some (slot_lo s, slot_hi s) else none

-- From the lowest address that an item of the function code has to the one after the highest.
abbrev pub extent : ℕ → List Slot → Option (ℕ × ℕ)
extent fc [] = none
extent fc (s ∷ ss) = hull (own_range fc s) (extent fc ss)

get-widen :
    (fc : ℕ) (s : Slot) (groups : Dict ℕ (ℕ × ℕ))
    → get fc (widen s groups) ≡ hull (get fc groups) (own_range fc s)
unfolding widen
get-widen fc s groups = elim (Bool-cases (fc_of s.reg == fc)) [
  | inl same ↦
      let f : fc_of s.reg ≡ fc = (==_iff (fc_of s.reg) fc).0 same in
      rw same (
        subst (λ k. get k (widen s groups) ≡ hull (get k groups) (some (slot_lo s, slot_hi s))) f
          own)
  | inr other ↦
      let apart = λ (r : ℕ × ℕ). get-put_ne (fc_of s.reg) fc r groups (ne other) in
      rw other (elim (Option-cases (get (fc_of s.reg) groups)) [
        | inl first ↦ rw (first, widen) (apart (slot_lo s, slot_hi s) ∙ hull-none (get fc groups))
        | inr ((a, b), there) ↦
            rw (there, widen)
              (apart (min a (slot_lo s), max b (slot_hi s)) ∙ hull-none (get fc groups))
      ])
]
  where
    ne : (fc_of s.reg == fc) ≡ false → fc_of s.reg ≢ fc
    ne other p = absurd (ground arith)

    own :
        get (fc_of s.reg) (widen s groups)
        ≡ hull (get (fc_of s.reg) groups) (some (slot_lo s, slot_hi s))
    own = elim (Option-cases (get (fc_of s.reg) groups)) [
      | inl first ↦ rw (first, widen) (get-put_self (fc_of s.reg) (slot_lo s, slot_hi s) groups)
      | inr ((a, b), there) ↦
          rw (there, widen)
            (get-put_self (fc_of s.reg) (min a (slot_lo s), max b (slot_hi s)) groups)
    ]

pub get-groups_of :
    (fc : ℕ) (ss : List Slot) (groups : Dict ℕ (ℕ × ℕ))
    → get fc (groups_of ss groups) ≡ hull (get fc groups) (extent fc ss)
unfolding groups_of
get-groups_of fc [] groups = hull-none (get fc groups)
get-groups_of fc (s ∷ ss) groups =
    get-groups_of fc ss (widen s groups)
    ∙ ap (λ q. hull q (extent fc ss)) (get-widen fc s groups)
    ∙ hull_assoc (get fc groups) (own_range fc s) (extent fc ss)
