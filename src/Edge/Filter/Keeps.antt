-- ===== src/Edge/Filter/Keeps.antt =====
-- What `apply` does to a whole sample.
use data_gateway.Base.{
  ℕ, String, ◌≡◌, ◌∙◌, ◌⊎◌, inl, inr, Bool, true, false, some, List, [], ◌∷◌, arith, if◌then◌else◌,
  Bool-cases, Option-cases,
}
use data_gateway.Base.Dict.{Dict, get, put, get-put}
use data_gateway.Base.Key.{String_key, pair_key}
use data_gateway.Base.Floats.{Floats}
use data_gateway.Config.{Item}
use data_gateway.Edge.Sample.{Sample}
use data_gateway.Edge.Filter.{NoiseFilter, in_range, accept, note_drop, apply_items, apply}
use data_gateway.Edge.Filter.Steps.{accept_settles, IsSettling, accept-IsSettling}

module _ (fl : Floats) where
  open fl use {Float}

  -- `v` is the value of an item of the list with key `j`, and lies in that item's range.
  abbrev pub Fits : List (Item fl) → String → Float → Type 0
  Fits [] j v = ⊥
  Fits (it ∷ its) j v = ((it.key ≡ j) × (in_range fl it v ≡ true)) ⊎ Fits its j v

  abbrev Kept : Dict String Float → Dict String Float → List (Item fl) → String → Float → Type 0
  Kept values kept its j v = (get j kept ≡ some v) ⊎ ((get j values ≡ some v) × Fits its j v)

  Kept-put :
      (values kept : Dict String Float) (it : Item fl) (its : List (Item fl)) (u : Float)
      (j : String) (v : Float)
      → get it.key values ≡ some u
      → in_range fl it u ≡ true
      → get j (put it.key u kept) ≡ some v
      → Kept values kept (it ∷ its) j v
  Kept-put values kept it its u j v found inside h = elim (Bool-cases (String_key.beq it.key j)) [
    | inr other ↦ inl (ground (arith, get-put it.key j u kept))
    | inl same ↦
        let key : it.key ≡ j = (String_key.beq_iff it.key j).0 same in
        let now : some u ≡ some v = ground (arith, get-put it.key j u kept) in
        inr (rw key at found ∙ now, inl (key, ground arith))
  ]

  here :
      (code : String) (ts : ℕ) (values kept : Dict String Float) (it : Item fl)
      (its : List (Item fl)) (f : NoiseFilter fl) (u : Float) (j : String) (v : Float)
      → get it.key values ≡ some u
      → Kept values (if (accept fl code it u f).0 then put it.key u kept else kept) its j v
      → Kept values kept (it ∷ its) j v
  here code ts values kept it its f u j v found (inr (e, fits)) = inr (e, inr fits)
  here code ts values kept it its f u j v found (inl e) =
      elim (Bool-cases (accept fl code it u f).0) [
        | inr dropped ↦ inl (rw dropped at e)
        | inl fine ↦
            Kept-put values kept it its u j v found (accept_settles fl code it u f fine).0
              (rw fine at e)
      ]

  later :
      (values kept : Dict String Float) (it : Item fl) (its : List (Item fl)) (j : String)
      (v : Float)
      → Kept values kept its j v
      → Kept values kept (it ∷ its) j v
  later values kept it its j v (inl old) = inl old
  later values kept it its j v (inr (e, fits)) = inr (e, inr fits)

  apply_items_keeps :
      (code : String) (ts : ℕ) (values : Dict String Float) (its : List (Item fl))
      (kept : Dict String Float) (f : NoiseFilter fl) (j : String) (v : Float)
      → get j (apply_items fl code ts values its kept f).0 ≡ some v
      → Kept values kept its j v
  unfolding apply_items
  apply_items_keeps code ts values [] kept f j v h = inl h
  apply_items_keeps code ts values (it ∷ its) kept f j v h =
      elim (Option-cases (get it.key values)) [
        | inl missing ↦
            later values kept it its j v
              (apply_items_keeps code ts values its kept f j v (rw (missing, apply_items) at h))
        | inr (u, found) ↦
            let fine = (accept fl code it u f).0 in
            let f' = (accept fl code it u f).1 in
            let kept' = if fine then put it.key u kept else kept in
            here code ts values kept it its f u j v found (
              apply_items_keeps code ts values its kept'
                (if fine then f' else note_drop fl code it u ts f') j v
                (rw (found, apply_items) at h))
      ]

  -- Every value that a filtered sample holds was in the sample before, under the same key, and lies in
  -- the physical range of an item of the device with that key.
  pub apply_keeps :
      (s : Sample fl) (f : NoiseFilter fl) (j : String) (v : Float)
      → get j (apply fl s f).0.values ≡ some v
      → (get j s.values ≡ some v) × Fits s.equip.items j v
  unfolding apply
  apply_keeps s f j v h =
      only_new (apply_items_keeps s.equip.code s.collect_dt s.values s.equip.items [] f j v h)
    where
      only_new :
          Kept s.values [] s.equip.items j v → (get j s.values ≡ some v) × Fits s.equip.items j v
      only_new (inl old) = unfold get in cc
      only_new (inr new) = new

  IsSettling-note_drop :
      (code : String) (it : Item fl) (u : Float) (ts : ℕ) (fine : Bool) (f : NoiseFilter fl)
      → IsSettling fl f
      → IsSettling fl (if fine then f else note_drop fl code it u ts f)
  IsSettling-note_drop code it u ts true f h = h
  IsSettling-note_drop code it u ts false f h = record { below = h.below }

  items_settle :
      (code : String) (ts : ℕ) (values : Dict String Float) (its : List (Item fl))
      (kept : Dict String Float) (f : NoiseFilter fl)
      → IsSettling fl f
      → IsSettling fl (apply_items fl code ts values its kept f).1
  unfolding apply_items
  items_settle code ts values [] kept f h = h
  items_settle code ts values (it ∷ its) kept f h = elim (Option-cases (get it.key values)) [
    | inl missing ↦ rw (missing, apply_items) (items_settle code ts values its kept f h)
    | inr (u, found) ↦
        let fine = (accept fl code it u f).0 in
        let f' = (accept fl code it u f).1 in
        rw (found, apply_items)
          (items_settle code ts values its (if fine then put it.key u kept else kept)
            (if fine then f' else note_drop fl code it u ts f')
            (IsSettling-note_drop code it u ts fine f' (accept-IsSettling fl code it u f h)))
  ]

  -- A sample brings no counter of sudden values to three.
  pub apply-IsSettling :
      (s : Sample fl) (f : NoiseFilter fl) → IsSettling fl f → IsSettling fl (apply fl s f).1
  unfolding apply
  apply-IsSettling s f h = items_settle s.equip.code s.collect_dt s.values s.equip.items [] f h
