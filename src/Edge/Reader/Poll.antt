-- ===== src/Edge/Reader/Poll.antt =====
-- The state of `PlcReader` of src/twin/edge/collectors.py, its `poll`, and the states that it reports.
-- Times are readings of the monotonic clock in microseconds; a poll reads the clock once.
use data_gateway.Base.{
  ℕ, ◌+◌, ◌*◌, max, String, Bool, true, false, not, ◌&&◌, Option, none, some, List, [], ◌∷◌, ◌++◌,
  map, ltb, leb, ◌==◌, if◌then◌else◌,
}
use data_gateway.Base.Dict.{Dict, get, put, get_or}
use data_gateway.Base.Key.{ℕ_key, String_key}
use data_gateway.Base.Floats.{Floats}
use text.Mathlib.Text.{◌==◌ as text_eq}
use data_gateway.Modbus.Outcome.{Error, Result, ok, err, key_error, kind}
use data_gateway.Config.{Equip}
use data_gateway.Diag.{Diag, attempt, poll}
use data_gateway.Plc.Link.{ReadResult}
use data_gateway.Edge.Sample.{Sample}
use data_gateway.Edge.Reader.{Layout, ranges, keep_words, Device, update_device}

-- `==` of two results of `mem.get`
abbrev pub same_word : Option ℕ → Option ℕ → Bool
same_word none none = true
same_word (some a) (some b) = a == b
same_word _ _ = false

-- What was seen of a word that should change, and when it changed last.
unfoldable pub watch : ℕ → Option ℕ → Option ℕ × ℕ → Option ℕ × ℕ
watch now word (old, at) = if same_word old word then (old, at) else (word, now)

module _ (fl : Floats) where
  open fl use {Float}

  -- The state of a reader of one PLC. `equips` are the devices of its blocks.
  pub record Reader (S : Type 0) : Type 0 where
    pub id : String
    pub layout : Layout
    pub equips : Dict String (Equip fl)
    pub poll_ms : ℕ
    pub stale_milli : ℕ
    pub link : S
    pub link_ok : Bool
    pub link_diag : Diag
    pub heartbeat : Option ℕ
    pub hb_changed : ℕ
    pub slave_mirror : Option ℕ
    pub mirror_changed : ℕ
    pub diag_words : List ℕ
    pub dev : Dict String (Device fl)

  module _ {S : Type 0} (read : ℕ → ℕ → S → Result ReadResult × S) where
    -- The loop over `ranges`. An error that is no `ModbusError` leaves the poll at once.
    unfoldable pub read_ranges :
        ℕ → List (ℕ × ℕ) → Dict ℕ ℕ → Reader S → Result (Dict ℕ ℕ) × Reader S
    unfolding keep_words
    read_ranges now [] mem r = (ok mem, r)
    read_ranges now ((addr, count) ∷ rest) mem r =
        let (res, l) = read addr count r.link in
        elim res [
          | err x ↦ (err x, record r { link = l })
          | ok x ↦
              read_ranges now rest (keep_words addr x.words mem)
                (record r { link = l; link_diag = attempt now true (some x.rtt) none r.link_diag })
        ]

    -- `poll` on an error of a read
    unfoldable pub read_failed : ℕ → Error → Reader S → Result (Unit {0}) × Reader S
    read_failed now x r = elim (kind x) [
      | none ↦ (err x, r)
      | some k ↦ (
        ok tt,
        record r {
          link_diag = poll now false (attempt now false none (some k) r.link_diag);
          link_ok = false;
        },
      )
    ]

    -- `diag_words`, the heartbeat, and of the master the mirror of the slave's heartbeat
    unfoldable pub see_diag : ℕ → Dict ℕ ℕ → Reader S → Reader S
    unfolding watch
    see_diag now mem r =
        let d = r.layout.diag_base in
        let beat = watch now (get d mem) (r.heartbeat, r.hb_changed) in
        let mirror = watch now (get (d + 2) mem) (r.slave_mirror, r.mirror_changed) in
        let r' = record r {
          diag_words = map (λ i. get_or (d + i) 0 mem) (0 ∷ 1 ∷ 2 ∷ 3 ∷ 4 ∷ 5 ∷ []);
          heartbeat = beat.0;
          hb_changed = beat.1;
        } in
        if text_eq r.id "MASTER"
        then record r' { slave_mirror = mirror.0; mirror_changed = mirror.1 }
        else r'

    -- The loop over the blocks. A device that raises ends the poll; those before it keep their samples.
    unfoldable pub update_all :
        ℕ
        → ℕ
        → Dict ℕ ℕ
        → List (String × ℕ)
        → Reader S
        → List (Sample fl) × Result (Unit {0}) × Reader S
    unfolding update_device
    update_all now wall mem [] r = ([], ok tt, r)
    update_all now wall mem ((name, base) ∷ rest) r = elim (get name r.equips) [
      | none ↦ ([], err key_error, r)
      | some e ↦ elim (get name r.dev) [
        | none ↦ ([], err key_error, r)
        | some st ↦
            let (res, st') = update_device fl r.id e base mem now wall st in
            let r' = record r { dev = put name st' r.dev } in
            elim res [
              | err x ↦ ([], err x, r')
              | ok samples ↦
                  let (more, end, r'') = update_all now wall mem rest r' in
                  (samples ++ more, end, r'')
            ]
      ]
    ]

    -- `poll`: the samples that it emits, whether it raises, and the reader afterwards.
    unfoldable pub poll_plc : ℕ → ℕ → Reader S → List (Sample fl) × Result (Unit {0}) × Reader S
    unfolding read_ranges read_failed see_diag update_all
    poll_plc now wall r =
        let (res, r₁) = read_ranges now (ranges r.layout) [] r in
        elim res [
          | err x ↦ let (end, r₂) = read_failed now x r₁ in ([], end, r₂)
          | ok mem ↦
              let r₂ = record r₁ { link_diag = poll now true r₁.link_diag; link_ok = true } in
              update_all now wall mem r₂.layout.blocks (see_diag now mem r₂)
        ]

  -- `plc_state`, true for "OK": the last poll read everything and the heartbeat is at most 3 s old.
  unfoldable pub plc_is_ok : {S : Type 0} → ℕ → Reader S → Bool
  plc_is_ok now r = r.link_ok && not (ltb (r.hb_changed + 3000000) now)

  -- `slave_link_state`
  unfoldable pub slave_link_state : {S : Type 0} → ℕ → Reader S → Option String
  slave_link_state now r =
      if not (text_eq r.id "MASTER")
      then none
      else if not r.link_ok
      then some "UNKNOWN"
      else if leb now (r.mirror_changed + 3000000)
      then some "OK"
      else some "DOWN"

  -- `STATUS_NAMES.get(status, "DOWN")`
  abbrev pub status_name : ℕ → String
  status_name n =
      if n == 0
      then "OK"
      else if n == 1
      then "DELAY"
      else if n == 2
      then "DOWN"
      else if n == 3
      then "ERROR"
      else "DOWN"

  -- `st["counter"] is not None and … and st["plc_status"] == STATUS_OK`
  abbrev pub is_stale : ℕ → ℕ → Device fl → Bool
  is_stale now stale st = elim st.counter [
    | none ↦ false
    | some _ ↦ ltb (st.changed + stale) now && (st.plc_status == 0)
  ]

  -- `device_state`. The periods are in milliseconds, and the stale factor in thousandths.
  unfoldable pub device_state : {S : Type 0} → ℕ → String → Reader S → Result String
  unfolding plc_is_ok
  device_state now name r = elim (get name r.dev) [
    | none ↦ err key_error
    | some st ↦ elim (get name r.equips) [
      | none ↦ err key_error
      | some e ↦
          let stale = max e.poll_ms r.poll_ms * r.stale_milli + 1000000 in
          if not (plc_is_ok now r)
          then ok "STALE"
          else if is_stale now stale st
          then ok "STALE"
          else ok (status_name st.plc_status)
    ]
  ]
