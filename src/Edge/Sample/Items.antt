-- ===== src/Edge/Sample/Items.antt =====
-- The items that `to_raw_items` of src/twin/edge/core.py makes of a sample are those of its device.
use data_gateway.Base.{String, ◌≡◌, subst, inl, inr, some, List, [], ◌∷◌, Option-cases, All}
use data_gateway.Base.Dict.{get}
use data_gateway.Base.Key.{String_key}
use data_gateway.Base.Floats.{Floats}
use data_gateway.Config.{Item, comm_type}
use data_gateway.Edge.Sample.{RawItem, Sample, fmt_value, raw_item, raw_items_of, to_raw_items}

module _ (fl : Floats) (P : String → Type 0) (s : Sample fl) where
  made :
      (its : List (Item fl)) (items : List RawItem)
      → P s.equip.code
      → raw_items_of fl s its ≡ some items
      → All (λ (it : RawItem). P it.equip_code) items
  unfolding raw_items_of raw_item
  made [] items h e =
      let none_left : [] ≡ items = cc in
      subst (All (λ (it : RawItem). P it.equip_code)) none_left tt
  made (it ∷ its) items h e = elim (Option-cases (get it.key s.values)) [
    | inl absent ↦ made its items h (rw (absent, raw_items_of) at e)
    | inr (v, present) ↦ elim (Option-cases (fmt_value fl v it)) [
      | inl unwritten ↦ absurd (cc (rw (present, raw_items_of, unwritten) at e))
      | inr (text, written) ↦ elim (Option-cases (comm_type fl s.equip)) [
        | inl unconnected ↦ absurd (cc (rw (present, raw_items_of, written, unconnected) at e))
        | inr (comm, connected) ↦ elim (Option-cases (raw_items_of fl s its)) [
          | inl fails ↦ absurd (cc (rw (present, raw_items_of, written, connected, fails) at e))
          | inr (rest, fine) ↦
              let all : (raw_item fl s it text comm ∷ rest) ≡ items =
                cc (rw (present, raw_items_of, written, connected, fine) at e) in
              subst (All (λ (it : RawItem). P it.equip_code)) all (h, made its rest h fine)
        ]
      ]
    ]
  ]

  pub All-to_raw_items :
      (items : List RawItem)
      → P s.equip.code
      → to_raw_items fl s ≡ some items
      → All (λ (it : RawItem). P it.equip_code) items
  unfolding to_raw_items
  All-to_raw_items items h e = made s.equip.items items h e
