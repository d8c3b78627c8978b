-- ===== src/Edge/Sender/Sampled.antt =====
-- What `_on_sample` of src/twin/edge/collector.py does to the buffer: one `enqueue`, or nothing.
use data_gateway.Base.{
  ℕ, ◌+◌, String, ◌≡◌, refl, ap, ◌⊎◌, inl, inr, Bool, List, arith, ◌==◌, Bool-cases, Option-cases,
  length, All,
}
use data_gateway.Base.Key.{String_key}
use data_gateway.Base.Floats.{Floats}
use data_gateway.Edge.Sample.{RawItem, Sample, to_raw_items}
use data_gateway.Edge.Sample.Items.{All-to_raw_items}
use data_gateway.Edge.Filter.{apply}
use data_gateway.Edge.Buffer.{Buffer, enqueue}
use data_gateway.Edge.Sender.{Edge, link_is_down, priority, on_sample}

module _ (fl : Floats) (P : String → Type 0) where
  -- The buffer afterwards is the one before, or it has more items, of the sample's device.
  abbrev pub Sampled : Buffer → Buffer → Type 0
  Sampled b b' =
      (b' ≡ b)
      ⊎ ((now : ℕ) × (items : List RawItem) × (prio : ℕ) × (buffered : Bool) × All
            (λ (it : RawItem). P it.equip_code) items
          × (b' ≡ (enqueue now items prio buffered b).1))

  priority-buffer : (s : Sample fl) (e : Edge fl) → (priority fl s e).1.buffer ≡ e.buffer
  unfolding priority
  priority-buffer s e = ground arith

  apply-equip : (s : Sample fl) (e : Edge fl) → (apply fl s e.filter).0.equip ≡ s.equip
  unfolding apply
  apply-equip s e = refl

  pub on_sample-Sampled :
      (now : ℕ) (s : Sample fl) (e : Edge fl)
      → P s.equip.code
      → Sampled e.buffer (on_sample fl now s e).buffer
  unfolding on_sample
  on_sample-Sampled now s e h =
      let s' = (apply fl s e.filter).0 in
      let e' = record e { samples_in = e.samples_in + 1; filter = (apply fl s e.filter).1 } in
      let e'' = (priority fl s' e').1 in
      elim (Bool-cases (length s'.values == 0)) [
        | inl none_left ↦ inl (rw (none_left, on_sample) refl)
        | inr some_left ↦ elim (Option-cases (to_raw_items fl s')) [
          | inl raises ↦ inl (rw (some_left, on_sample, raises) (priority-buffer s' e'))
          | inr (items, made) ↦
              let prio = (priority fl s' e').0 in
              let down = link_is_down fl e'' in
              let same =
                ap (λ (b : Buffer). (enqueue now items prio down b).1) (priority-buffer s' e') in
              inr (
                now,
                items,
                prio,
                down,
                All-to_raw_items fl P s' items (rw (apply-equip s e) h) made,
                rw (some_left, on_sample, made) same,
              )
        ]
      ]
