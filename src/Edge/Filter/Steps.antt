-- ===== src/Edge/Filter/Steps.antt =====
-- What `_accept` lets through, and what it remembers.
use data_gateway.Base.{ℕ, ◌+◌, ◌≤◌, String, ◌≡◌, refl, ◌≢◌, true, false, not, some, arith, ltb}
use data_gateway.Base.Dict.{Dict, get, put, get_or, get-put, get-put_self, get-put_ne}
use data_gateway.Base.Key.{String_key, pair_key}
use data_gateway.Base.Floats.{Floats}
use data_gateway.Config.{Item}
use data_gateway.Edge.Filter.{Tag, NoiseFilter, in_range, is_sudden, accept}

module _ (fl : Floats) where
  open fl use {Float}

  -- The counter of sudden values never reaches three: at the third the value is accepted.
  pub record IsSettling (f : NoiseFilter fl) : Type 0 where
    pub below : (k : Tag) → get_or k 0 f.pending ≤ 2

  put_below :
      (k j : Tag) (n : ℕ) (d : Dict Tag ℕ) → n ≤ 2 → get_or j 0 d ≤ 2 → get_or j 0 (put k n d) ≤ 2
  put_below k j n d small h = ground (arith, get-put k j n d)

  pub accept-IsSettling :
      (code : String) (it : Item fl) (v : Float) (f : NoiseFilter fl)
      → IsSettling f
      → IsSettling (accept fl code it v f).1
  unfolding accept
  accept-IsSettling code it v f h = record {
    below = λ j.
        let k : Tag = (code, it.key) in
        let n = get_or k 0 f.pending + 1 in
        ground (
          arith,
          h.below j,
          put_below k j 0 f.pending (omega arith) (h.below j),
          put_below k j n f.pending,
          put_below k j 0 (put k n f.pending) (omega arith),
          get-put k j n f.pending,
          get-put k j 0 (put k n f.pending),
        );
  }

  -- An accepted value lies in the physical range, it becomes the value that the next one is compared
  -- with, and the counter starts again.
  pub accept_settles :
      (code : String) (it : Item fl) (v : Float) (f : NoiseFilter fl)
      → (accept fl code it v f).0 ≡ true
      → (in_range fl it v ≡ true)
        × (get (code, it.key) (accept fl code it v f).1.last ≡ some v)
        × (get (code, it.key) (accept fl code it v f).1.pending ≡ some 0)
  unfolding accept
  accept_settles code it v f h =
      let k : Tag = (code, it.key) in
      let n = get_or k 0 f.pending + 1 in
      ground (
        arith,
        get-put_self k v f.last,
        get-put_self k 0 f.pending,
        get-put_self k 0 (put k n f.pending),
      )

  -- A value that is not accepted leaves the remembered values as they were.
  pub accept_refuses :
      (code : String) (it : Item fl) (v : Float) (f : NoiseFilter fl)
      → (accept fl code it v f).0 ≡ false
      → (accept fl code it v f).1.last ≡ f.last
  unfolding accept
  accept_refuses code it v f h = ground arith

  -- No other tag's memory is touched.
  pub accept_others :
      (code : String) (it : Item fl) (v : Float) (f : NoiseFilter fl) (j : Tag)
      → ◌≢◌ {A = Tag} (code, it.key) j
      → (get j (accept fl code it v f).1.last ≡ get j f.last)
        × (get j (accept fl code it v f).1.pending ≡ get j f.pending)
  unfolding accept
  accept_others code it v f j ne =
      let k : Tag = (code, it.key) in
      let n = get_or k 0 f.pending + 1 in
      ground (
        arith,
        get-put_ne k j v f.last ne,
        get-put_ne k j 0 f.pending ne,
        get-put_ne k j n f.pending ne,
        get-put_ne k j 0 (put k n f.pending) ne,
      )

  -- A sudden value that comes as number `n + 1` of its kind.
  sudden_step :
      (code : String) (it : Item fl) (p v : Float) (n : ℕ) (f : NoiseFilter fl)
      → in_range fl it v ≡ true
      → is_sudden fl it (some p) v ≡ true
      → get (code, it.key) f.last ≡ some p
      → get_or (code, it.key) 0 f.pending ≡ n
      → n ≤ 2
      → ((accept fl code it v f).0 ≡ not (ltb n 2))
        × (ltb n 2 ≡ true
            → (get (code, it.key) (accept fl code it v f).1.last ≡ some p)
              × (get_or (code, it.key) 0 (accept fl code it v f).1.pending ≡ n + 1))
  unfolding accept
  sudden_step code it p v n f inside sudden known count small =
      let k : Tag = (code, it.key) in
      ground (arith, get-put_self k (get_or k 0 f.pending + 1) f.pending)

  -- Three values in a row, each in range and too far from the last accepted one: the first two are
  -- dropped and the third is accepted, in whichever directions they lie.
  pub third_is_accepted :
      (code : String) (it : Item fl) (p u v w : Float) (f : NoiseFilter fl)
      → in_range fl it u ≡ true
      → in_range fl it v ≡ true
      → in_range fl it w ≡ true
      → is_sudden fl it (some p) u ≡ true
      → is_sudden fl it (some p) v ≡ true
      → is_sudden fl it (some p) w ≡ true
      → get (code, it.key) f.last ≡ some p
      → get_or (code, it.key) 0 f.pending ≡ 0
      → let (first, f₁) = accept fl code it u f in
        let (second, f₂) = accept fl code it v f₁ in
        let (third, f₃) = accept fl code it w f₂ in
        (first ≡ false) × (second ≡ false) × (third ≡ true) × (get (code, it.key) f₃.last ≡ some w)
  third_is_accepted code it p u v w f iu iv iw su sv sw known zero_count =
      let f₁ = (accept fl code it u f).1 in
      let f₂ = (accept fl code it v f₁).1 in
      let a = sudden_step code it p u 0 f iu su known zero_count (omega arith) in
      let a' = a.1 refl in
      let b = sudden_step code it p v 1 f₁ iv sv a'.0 a'.1 (omega arith) in
      let b' = b.1 refl in
      let c = sudden_step code it p w 2 f₂ iw sw b'.0 b'.1 (omega arith) in
      (a.0, b.0, c.0, (accept_settles code it w f₂ c.0).1)
