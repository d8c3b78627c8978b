-- ===== src/Mes/Process/Route.antt =====
-- `_taping`, `_weight`, `_filler` and `route` of src/twin/mes/store.py.
use data_gateway.Base.{
  ℕ, String, Bool, true, false, Option, none, some, [], ◌∷◌, ◌++◌, if◌then◌else◌,
}
use data_gateway.Base.Dict.{Dict, get, put, get_or}
use data_gateway.Base.Key.{ℕ_key, String_key}
use data_gateway.Base.Floats.{Floats}
use data_gateway.Base.Int.{pos}
use text.Mathlib.Text.{◌==◌ as text_eq}
use data_gateway.Modbus.Outcome.{Result, ok, err, key_error, type_error}
use data_gateway.Config.{Equip, CcpRule}
use data_gateway.Config.Twin.{equip_in}
use data_gateway.Mes.Tables.{TapingLog, WeightInsp, FillerLog, Judge, fits, too_light, too_heavy}
use data_gateway.Mes.Runs.{run_log}
use data_gateway.Mes.Process.{Extra, nothing, judged, Published, Setup, Store, half, rule_of}
use data_gateway.Mes.Process.Handlers.{salinity, env, sanitizer, metal, raise_event}

module _ (fl : Floats) where
  open fl use {Float, of_int, sub, mul, div, abs, lt, le, truthy, round_to}

  -- `self._run_log(…)` if the key is there: whether its value is 0.5 or more.
  unfoldable pub log_run : Equip fl → ℕ → ℕ → Option Float → Store fl → Store fl
  log_run e eid ts none s = s
  log_run e eid ts (some r) s = record s { runs = run_log fl e.code eid (le (half fl) r) ts s.runs }

  -- `_taping` from the pack count on
  unfoldable pub log_packs : Equip fl → ℕ → ℕ → Dict String Float → Store fl → Store fl
  log_packs e eid ts v s = elim (get "pack_count" v) [
    | none ↦ s
    | some count ↦
        let s' = record s { pkg_prev = put e.code count s.pkg_prev } in
        elim (get e.code s.pkg_prev) [
          | none ↦ s'
          | some prev ↦
              let row : TapingLog fl = record {
                equip_id = eid;
                packed = sub count prev;
                running = le (half fl) (get_or "running" (of_int (pos 1)) v);
                run_minutes = get "run_minutes" v;
                at = ts;
              } in
              if lt prev count then record s' { taping = row ∷ s.taping } else s'
        ]
  ]

  unfoldable pub taping : Equip fl → ℕ → ℕ → Dict String Float → Store fl → Extra fl × Store fl
  unfolding log_run log_packs
  taping e eid ts v s = (nothing, log_packs e eid ts v (log_run e eid ts (get "running" v) s))

  -- `x or other` of an optional number
  abbrev pub or_else : Option Float → Float → Float
  or_else none other = other
  or_else (some x) other = if truthy x then x else other

  -- The standard weight and the band around it.
  abbrev pub standard : Option (CcpRule fl) → Float × Float
  standard none = (of_int (pos 10), div (of_int (pos 2)) (of_int (pos 10)))
  standard (some rule) =
      let std = or_else rule.std (of_int (pos 10)) in
      (std, div (mul std (or_else rule.band_pct (of_int (pos 2)))) (of_int (pos 100)))

  abbrev pub judge : Float → Float → Float → Judge
  judge w std band =
      if le (abs (sub w std)) band then fits else if lt w std then too_light else too_heavy

  abbrev pub is_fit : Judge → Bool
  is_fit fits = true
  is_fit _ = false

  -- The message of the event formats `rule.band_pct`: a TypeError if the rule has none.
  unfoldable pub weight :
      Setup fl → Equip fl → ℕ → Dict String Float → Store fl → Result (Extra fl) × Store fl
  weight setup e ts v s = elim (get "weight" v) [
    | none ↦ (ok nothing, s)
    | some w ↦
        let rule = rule_of fl e.code "weight" setup in
        let (std, band) = standard rule in
        let j = judge w std band in
        let row : WeightInsp fl = record {
          standard = std;
          measured = w;
          gap = round_to 3 (sub w std);
          judge = j;
          at = ts;
        } in
        let s' = record s { weight = row ∷ s.weight } in
        if is_fit j then (ok (judged j), s') else elim rule [
          | none ↦ (ok (judged j), s')
          | some r ↦ elim r.band_pct [
            | none ↦ (err type_error, s')
            | some _ ↦ (ok (judged j), raise_event fl true (some r) e.code ts s')
          ]
        ]
  ]

  unfoldable pub filler : Equip fl → ℕ → ℕ → Dict String Float → Store fl → Extra fl × Store fl
  unfolding log_run
  filler e eid ts v s =
      let s' = log_run e eid ts (get "run" v) s in
      let row : FillerLog fl = record {
        equip_id = eid;
        speed = get "speed" v;
        set_volume = get "set_volume" v;
        at = ts;
      } in
      (nothing, record s' { filler = row ∷ s'.filler })

  -- What a handler that does not raise returns.
  abbrev pub returned : Extra fl × Store fl → Option (Result (Extra fl)) × Store fl
  returned (extra, s) = (some (ok extra), s)

  -- The table of handlers; a device with another target has none.
  unfoldable pub handle :
      ℕ
      → (ℕ → String)
      → Setup fl
      → Equip fl
      → ℕ
      → ℕ
      → Dict String Float
      → Store fl
      → Option (Result (Extra fl)) × Store fl
  unfolding taping weight filler
  handle rounds label setup e eid ts v s =
      if text_eq e.target "SLT_SALINITY_LOG"
      then salinity fl rounds label setup e ts v s
      else if text_eq e.target "AGE_ENV_LOG"
      then returned (env fl setup e eid ts v s)
      else if text_eq e.target "WSH_SANITIZER_LOG"
      then returned (sanitizer fl setup e eid ts v s)
      else if text_eq e.target "QUA_METAL_LOG"
      then returned (metal fl setup e eid ts v s)
      else if text_eq e.target "PKG_TAPING_LOG"
      then returned (taping e eid ts v s)
      else if text_eq e.target "PKG_WEIGHT_INSP"
      then (let (r, s') = weight setup e ts v s in (some r, s'))
      else if text_eq e.target "MIX_FILLER_LOG"
      then returned (filler e eid ts v s)
      else (some (ok nothing), s)

  -- `{**prev, **vals}`
  abbrev pub merged : Dict String Float → Dict String Float → Dict String Float
  merged prev [] = prev
  merged prev ((k, x) ∷ rest) = merged (put k x prev) rest

  -- The end of `route`: the last values of the device, and the message to the clients.
  unfoldable pub publish_values : String → ℕ → Dict String Float → Extra fl → Store fl → Store fl
  publish_values code ts vals extra s =
      let prev : Dict String Float = elim (get code s.last_values) [
        | none ↦ []
        | some p ↦ p.values
      ] in
      let message : Published fl = record { code = code; values = vals; at = ts; extra = extra } in
      record s {
        last_values = put code (record message { values = merged prev vals }) s.last_values;
        published = s.published ++ (message ∷ []);
      }

  unfoldable pub route :
      ℕ
      → (ℕ → String)
      → Setup fl
      → String
      → ℕ
      → Dict String Float
      → Store fl
      → Option (Result (Unit {0})) × Store fl
  unfolding handle publish_values
  route rounds label setup code ts vals s = elim (equip_in fl code setup.equipment) [
    | err x ↦ (some (err x), s)
    | ok e ↦ elim (get code setup.equip_id) [
      | none ↦ (some (err key_error), s)
      | some eid ↦
          let (r, s') = handle rounds label setup e eid ts vals s in
          elim r [
            | none ↦ (none, s')
            | some (err x) ↦ (some (err x), s')
            | some (ok extra) ↦ (some (ok tt), publish_values code ts vals extra s')
          ]
    ]
  ]
