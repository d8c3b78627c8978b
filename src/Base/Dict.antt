-- ===== src/Base/Dict.antt =====
-- A Python dict as an association list in insertion order: `d.get(k)`, `d[k] = v`, `d.pop(k, None)`.
use mathlib.Core.Path.{◌≡◌, refl}
use mathlib.Core.Logic.{◌≢◌}
use mathlib.Core.Bool.{Bool, true, false}
use mathlib.Core.Option.{Option, none, some}
use mathlib.Core.List.{List, [], ◌∷◌}
use native.Mathlib.Omega.{arith}
use data_gateway.Base.Tests.{if◌then◌else◌}
use data_gateway.Base.Key.{Key}

abbrev pub Dict {ℓ κ} : Type ℓ → Type κ → Type (ℓ ⊔ κ)
Dict K V = List (K × V)

module _ {ℓ κ} {K : Type ℓ} {V : Type κ} ⦃k : Key K⦄ where
  unfoldable pub get : K → Dict K V → Option V
  get a [] = none
  get a ((b, v) ∷ d) = if k.beq b a then some v else get a d

  -- A key that is there keeps its place.
  unfoldable pub put : K → V → Dict K V → Dict K V
  put a v [] = (a, v) ∷ []
  put a v ((b, w) ∷ d) = if k.beq b a then (b, v) ∷ d else (b, w) ∷ put a v d

  unfoldable pub remove : K → Dict K V → Dict K V
  remove a [] = []
  remove a ((b, w) ∷ d) = let rest = remove a d in if k.beq b a then rest else (b, w) ∷ rest

  -- `k in d`
  abbrev pub has : K → Dict K V → Bool
  has a d = elim (get a d) [ none ↦ false | some _ ↦ true ]

  -- `d.get(k, v)`
  abbrev pub get_or : K → V → Dict K V → V
  get_or a v d = elim (get a d) [ none ↦ v | some w ↦ w ]

  pub get-put :
      (a b : K) (v : V) (d : Dict K V) → get b (put a v d) ≡ (if k.beq a b then some v else get b d)
  unfolding get put
  get-put a b v [] = refl
  get-put a b v ((c, w) ∷ d) =
      ground (arith, k.beq_iff a b, k.beq_iff c a, k.beq_iff c b, get-put a b v d)

  pub get-remove :
      (a b : K) (d : Dict K V) → get b (remove a d) ≡ (if k.beq a b then none else get b d)
  unfolding get remove
  get-remove a b [] = ground arith
  get-remove a b ((c, w) ∷ d) =
      ground (arith, k.beq_iff a b, k.beq_iff c a, k.beq_iff c b, get-remove a b d)

  pub get-put_self : (a : K) (v : V) (d : Dict K V) → get a (put a v d) ≡ some v
  get-put_self a v d = ground (arith, get-put a a v d, k.beq_iff a a)

  pub get-put_ne : (a b : K) (v : V) (d : Dict K V) → a ≢ b → get b (put a v d) ≡ get b d
  get-put_ne a b v d h = ground (arith, get-put a b v d, k.beq_iff a b)

  pub get-remove_self : (a : K) (d : Dict K V) → get a (remove a d) ≡ none
  get-remove_self a d = ground (arith, get-remove a a d, k.beq_iff a a)

  pub get-remove_ne : (a b : K) (d : Dict K V) → a ≢ b → get b (remove a d) ≡ get b d
  get-remove_ne a b d h = ground (arith, get-remove a b d, k.beq_iff a b)
