-- ===== src/Field/Faults/Active.antt =====
-- Which faults `FaultManager.find` of src/twin/field/faults.py sees.
use text.Mathlib.Text.{◌==◌ as text_eq}
use data_gateway.Base.{
  ℕ, String, ◌≡◌, subst, inl, inr, true, false, not, ◌&&◌, some, [], ◌∷◌, arith, Bool-cases, keep,
}
use data_gateway.Base.Dict.{Dict}
use data_gateway.Base.Key.{ℕ_key, String_key}
use data_gateway.Field.Faults.{Fault, FaultManager, is_expired, active, first_of, find}

first_of-fits :
    (now : ℕ) (type target : String) (d : Dict ℕ Fault) (f : Fault)
    → first_of type target (keep (λ (e : ℕ × Fault). not (is_expired now e.1)) d) ≡ some f
    → (text_eq f.type type ≡ true) × (text_eq f.target target ≡ true) × (is_expired now f ≡ false)
unfolding first_of
first_of-fits now type target [] f h = absurd (cc)
first_of-fits now type target ((n, g) ∷ rest) f h = elim (Bool-cases (is_expired now g)) [
  | inl gone ↦ first_of-fits now type target rest f (rw gone at h)
  | inr here ↦ elim (Bool-cases (text_eq g.type type && text_eq g.target target)) [
    | inr other ↦ first_of-fits now type target rest f (rw (here, first_of, other) at h)
    | inl found ↦
        let same : g ≡ f = cc (rw (here, first_of, found) at h) in
        subst
          (λ x.
            (text_eq x.type type ≡ true)
            × (text_eq x.target target ≡ true)
            × (is_expired now x ≡ false))
          same (ground (arith, found), ground (arith, found), here)
  ]
]

-- A fault that is found has the type and the target that were asked for, and has not expired.
pub find-fits :
    (now : ℕ) (type target : String) (m : FaultManager) (f : Fault)
    → (find now type target m).0 ≡ some f
    → (f.type ≡ type) × (f.target ≡ target) × (is_expired now f ≡ false)
unfolding find active
find-fits now type target m f h =
    let (same_type, same_target, lasts) = first_of-fits now type target m.faults f h in
    (
      (String_key.beq_iff f.type type).0 same_type,
      (String_key.beq_iff f.target target).0 same_target,
      lasts,
    )
