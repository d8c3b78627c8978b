-- ===== src/Mes/Ingest/Loop.antt =====
-- The loop of `ingest` of src/twin/mes/store.py over the items of a batch: its invariants.
use data_gateway.Base.{
  ℕ, ◌+◌, String, ◌≡◌, refl, sym, ap, ◌∙◌, ◌≢◌, inl, inr, true, false, ◌||◌, none, List, [], ◌∷◌,
  ◌++◌, map, append-nil, append_assoc, arith, Bool-cases, Option-cases, length, All, length-append,
  All-append,
}
use data_gateway.Base.Dict.{Dict, get}
use data_gateway.Base.Key.{String_key}
use data_gateway.Edge.Sample.{RawItem}
use data_gateway.Mes.Ingest.{RawRow, recorded, Loading, load_item, load_all}

abbrev pub msg_ids : List RawItem → List ℕ
msg_ids = map (λ (it : RawItem). it.msg_id)

recorded-append :
    (n : ℕ) (xs ys : List RawRow) → recorded n (xs ++ ys) ≡ (recorded n xs || recorded n ys)
recorded-append n [] ys = refl
recorded-append n (x ∷ xs) ys = ground (arith, recorded-append n xs ys)

-- No two rows have one id: the unique index on MSG_ID.
abbrev pub Unique : List RawRow → Type 0
Unique [] = Unit
Unique (r ∷ rs) = (recorded r.item.msg_id rs ≡ false) × Unique rs

Unique-append :
    (xs : List RawRow) (r : RawRow)
    → Unique xs
    → recorded r.item.msg_id xs ≡ false
    → Unique (xs ++ (r ∷ []))
Unique-append [] r u h = (refl, tt)
Unique-append (x ∷ xs) r u h = (
  ground (arith, recorded-append x.item.msg_id xs (r ∷ [])),
  Unique-append xs r u.1 (ground arith),
)

abbrev pub Known : Dict String ℕ → RawItem → Type 0
Known equip_id it = get it.equip_code equip_id ≢ none

module _ (equip_id : Dict String ℕ) (now : ℕ) where
  load_item-Unique :
      (it : RawItem) (l : Loading) → Unique l.raw → Unique (load_item equip_id now it l).raw
  unfolding load_item
  load_item-Unique it l u = elim (Option-cases (get it.equip_code equip_id)) [
    | inl unknown ↦ rw (unknown, load_item) u
    | inr (eid, e) ↦ elim (Bool-cases (recorded it.msg_id l.raw)) [
      | inl dup ↦ rw (e, load_item, dup) u
      | inr new ↦ rw (e, load_item, new) (Unique-append l.raw _ u new)
    ]
  ]

  pub load_all-Unique :
      (items : List RawItem) (l : Loading)
      → Unique l.raw
      → Unique (load_all equip_id now items l).raw
  unfolding load_all
  load_all-Unique [] l u = u
  load_all-Unique (it ∷ its) l u =
      load_all-Unique its (load_item equip_id now it l) (load_item-Unique it l u)

  -- What the loop does to one id.
  recorded-load_item :
      (n : ℕ) (it : RawItem) (l : Loading)
      → recorded n l.raw ≡ true
      → recorded n (load_item equip_id now it l).raw ≡ true
  unfolding load_item
  recorded-load_item n it l h = elim (Option-cases (get it.equip_code equip_id)) [
    | inl unknown ↦ rw (unknown, load_item) h
    | inr (eid, e) ↦ elim (Bool-cases (recorded it.msg_id l.raw)) [
      | inl dup ↦ rw (e, load_item, dup) h
      | inr new ↦ rw (e, load_item, new) (rw (recorded-append n l.raw _, h) refl)
    ]
  ]

  pub recorded-load_all :
      (n : ℕ) (items : List RawItem) (l : Loading)
      → recorded n l.raw ≡ true
      → recorded n (load_all equip_id now items l).raw ≡ true
  unfolding load_all
  recorded-load_all n [] l h = h
  recorded-load_all n (it ∷ its) l h =
      recorded-load_all n its (load_item equip_id now it l) (recorded-load_item n it l h)

  loaded_self :
      (it : RawItem) (l : Loading)
      → Known equip_id it
      → recorded it.msg_id (load_item equip_id now it l).raw ≡ true
  unfolding load_item
  loaded_self it l known = elim (Option-cases (get it.equip_code equip_id)) [
    | inl unknown ↦ absurd (known unknown)
    | inr (eid, e) ↦ elim (Bool-cases (recorded it.msg_id l.raw)) [
      | inl dup ↦ rw (e, load_item, dup) dup
      | inr new ↦
          rw (e, load_item, new)
            (ground (
              arith,
              recorded-append it.msg_id l.raw
                  (record { equip_id = eid; item = it; received_dt = now } ∷ []),
            ))
    ]
  ]

  pub loaded :
      (items : List RawItem) (l : Loading)
      → All (Known equip_id) items
      → All (λ (it : RawItem). recorded it.msg_id (load_all equip_id now items l).raw ≡ true) items
  unfolding load_all
  loaded [] l known = tt
  loaded (it ∷ its) l known =
      let l' = load_item equip_id now it l in
      (recorded-load_all it.msg_id its l' (loaded_self it l known.0), loaded its l' known.1)

  accepted-load_item :
      (it : RawItem) (l : Loading)
      → (load_item equip_id now it l).accepted ≡ l.accepted ++ (it.msg_id ∷ [])
  unfolding load_item
  accepted-load_item it l = ground arith

  -- Every id is acknowledged, in the order of the items.
  pub accepted-load_all :
      (items : List RawItem) (l : Loading)
      → (load_all equip_id now items l).accepted ≡ l.accepted ++ msg_ids items
  unfolding load_all
  accepted-load_all [] l = sym (append-nil l.accepted)
  accepted-load_all (it ∷ its) l =
      accepted-load_all its (load_item equip_id now it l)
      ∙ ap (λ t. t ++ msg_ids its) (accepted-load_item it l)
      ∙ append_assoc l.accepted (it.msg_id ∷ []) (msg_ids its)

  duplicate :
      (it : RawItem) (l : Loading)
      → recorded it.msg_id l.raw ≡ true
      → ((load_item equip_id now it l).raw ≡ l.raw)
        × ((load_item equip_id now it l).fresh ≡ l.fresh)
  unfolding load_item
  duplicate it l dup = elim (Option-cases (get it.equip_code equip_id)) [
    | inl unknown ↦ rw (unknown, load_item) (refl, refl)
    | inr (eid, e) ↦ rw (e, load_item, dup) (refl, refl)
  ]

  -- A batch whose ids are all recorded adds nothing.
  pub load_again :
      (items : List RawItem) (l : Loading)
      → All (λ (it : RawItem). recorded it.msg_id l.raw ≡ true) items
      → ((load_all equip_id now items l).raw ≡ l.raw)
        × ((load_all equip_id now items l).fresh ≡ l.fresh)
  unfolding load_all
  load_again [] l h = (refl, refl)
  load_again (it ∷ its) l h =
      let (same_raw, same_fresh) = duplicate it l h.0 in
      let rest = load_again its (load_item equip_id now it l) (rw same_raw h.1) in
      (rest.0 ∙ same_raw, rest.1 ∙ same_fresh)

  -- What the table grew by is what is fresh.
  load_item-length :
      (it : RawItem) (l : Loading) (k : ℕ)
      → length l.raw ≡ k + length l.fresh
      → length (load_item equip_id now it l).raw ≡ k + length (load_item equip_id now it l).fresh
  unfolding load_item
  load_item-length it l k h = elim (Option-cases (get it.equip_code equip_id)) [
    | inl unknown ↦ rw (unknown, load_item) h
    | inr (eid, e) ↦ elim (Bool-cases (recorded it.msg_id l.raw)) [
      | inl dup ↦ rw (e, load_item, dup) h
      | inr new ↦
          let row : RawRow = record { equip_id = eid; item = it; received_dt = now } in
          rw (e, load_item, new)
            (ground (arith, length-append l.raw (row ∷ []), length-append l.fresh (it ∷ [])))
    ]
  ]

  pub load_all-length :
      (items : List RawItem) (l : Loading) (k : ℕ)
      → length l.raw ≡ k + length l.fresh
      → length (load_all equip_id now items l).raw
        ≡ k + length (load_all equip_id now items l).fresh
  unfolding load_all
  load_all-length [] l k h = h
  load_all-length (it ∷ its) l k h =
      load_all-length its (load_item equip_id now it l) k (load_item-length it l k h)

load_item-fresh :
    (P : RawItem → Type 0) (equip_id : Dict String ℕ) (now : ℕ) (it : RawItem) (l : Loading)
    → P it
    → All P l.fresh
    → All P (load_item equip_id now it l).fresh
unfolding load_item
load_item-fresh P equip_id now it l p h = elim (Option-cases (get it.equip_code equip_id)) [
  | inl unknown ↦ rw (unknown, load_item) h
  | inr (eid, e) ↦ elim (Bool-cases (recorded it.msg_id l.raw)) [
    | inl dup ↦ rw (e, load_item, dup) h
    | inr new ↦ rw (e, load_item, new) (All-append P l.fresh (it ∷ []) h (p, tt))
  ]
]

pub load_all-fresh :
    (P : RawItem → Type 0) (equip_id : Dict String ℕ) (now : ℕ) (items : List RawItem) (l : Loading)
    → All P items
    → All P l.fresh
    → All P (load_all equip_id now items l).fresh
unfolding load_all
load_all-fresh P equip_id now [] l p h = h
load_all-fresh P equip_id now (it ∷ its) l p h =
    load_all-fresh P equip_id now its (load_item equip_id now it l) p.1
      (load_item-fresh P equip_id now it l p.0 h)
