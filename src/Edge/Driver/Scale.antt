-- ===== src/Edge/Driver/Scale.antt =====
-- `AsciiScaleDriver`, `parse_scale_line` and the poll of `OpcUaDriver` of src/twin/edge/collectors.py. The
-- scale at the other end of the line, the OPC UA client and the texts of a frame are arguments.
use data_gateway.Base.{
  ℕ, ◌+◌, String, Bool, true, false, not, ◌||◌, Option, none, some, List, [], ◌∷◌, if◌then◌else◌,
}
use data_gateway.Base.Dict.{Dict, put}
use data_gateway.Base.Key.{String_key}
use data_gateway.Base.Floats.{Floats}
use Prim.Native.String.{◌++◌ as joined}
use text.Mathlib.Text.{◌==◌ as text_eq}
use data_gateway.Config.{Item}
use data_gateway.Diag.{attempt, poll, add_frame, quoted}
use data_gateway.Edge.Driver.{Driver, emit}

-- What `str.split(",")` and `str.removesuffix` do to a text.
pub record TextOps : Type 0 where
  pub split : String → List String
  pub without_kg : String → String

abbrev pub is_scale_state : String → Bool
is_scale_state s = text_eq s "ST" || text_eq s "US" || text_eq s "OL"

abbrev pub is_weight_kind : String → Bool
is_weight_kind s = text_eq s "GS" || text_eq s "NT"

-- What comes back on a request of the weight: nothing in time (or no connection, or its end), or a
-- line, stripped, after so many microseconds.
pub data ScaleAnswer : Type 0 where
  no_line : ScaleAnswer
  line : ℕ → String → ScaleAnswer

module _ (fl : Floats) (ops : TextOps) where
  open fl use {Float, parse_float}

  -- `parse_scale_line`
  unfoldable pub parse_scale_line : String → Option (String × Float)
  parse_scale_line text = elim (ops.split text) [
    | a ∷ b ∷ c ∷ [] ↦
        (if not (is_scale_state a) || not (is_weight_kind b)
          then none
          else elim (parse_float (ops.without_kg c)) [ none ↦ none | some v ↦ some (a, v) ])
    | _ ↦ none
  ]

  -- `AsciiScaleDriver.poll`. `link` is whether a connection is open.
  unfoldable pub poll_scale : ℕ → ℕ → ScaleAnswer → Driver fl Bool → Driver fl Bool
  unfolding parse_scale_line
  poll_scale now wall no_line d = record d {
    link = false;
    diag = poll now false (
        add_frame (quoted "Q\\r\\n") (quoted "(응답 없음)") "TIMEOUT" none
          (attempt now false none (some "timeout") d.diag));
  }
  poll_scale now wall (line rtt text) d = elim (parse_scale_line text) [
    | none ↦ record d {
      link = true;
      diag = poll now false (
          add_frame (quoted "Q\\r\\n") (quoted text) "FRAME" (some rtt)
            (attempt now false none (some "frame") d.diag));
    }
    | some (state, weight) ↦
        let is_stable = text_eq state "ST" in
        let d' = record d {
          link = true;
          diag = poll now true (
              add_frame (quoted "Q\\r\\n") (quoted text) (if is_stable then "OK" else "UNSTABLE")
                (some rtt) (attempt now true (some rtt) none d.diag));
        } in
        if is_stable
        then emit fl wall (("weight", weight) ∷ []) (("weight", joined "SERIAL." d.equip.code) ∷ [])
            d'
        else record d' { unstable = d.unstable + 1 }
  ]

module _ (fl : Floats) where
  open fl use {Float}

  -- The reads of `OpcUaDriver.poll`; `none` is an exception, of a node or of the client.
  unfoldable pub read_nodes :
      (String → Option Float) → List (Item fl) → Dict String Float → Option (Dict String Float)
  read_nodes node_value [] values = some values
  read_nodes node_value (it ∷ its) values = elim (node_value it.key) [
    | none ↦ none
    | some v ↦ read_nodes node_value its (put it.key v values)
  ]

  -- `it.node`, which a text shows as None if there is none
  abbrev pub node_text : Item fl → String
  node_text it = elim it.node [ none ↦ "None" | some n ↦ n ]

  abbrev pub node_tags : List (Item fl) → Dict String String → Dict String String
  node_tags [] tags = tags
  node_tags (it ∷ its) tags = node_tags its (put it.key (joined "OPCUA." (node_text it)) tags)

  -- One round of `OpcUaDriver.run` with a client: the poll, or what its failure leaves. `link` is
  -- whether there is a client. `tx` and `rx` are the texts of the frame.
  unfoldable pub round_opcua :
      ℕ
      → ℕ
      → ℕ
      → (String → Option Float)
      → String
      → (Dict String Float → String)
      → Driver fl Bool
      → Driver fl Bool
  unfolding read_nodes
  round_opcua now wall rtt node_value tx rx d = elim (read_nodes node_value d.equip.items []) [
    | none ↦ record d {
      link = false;
      diag = poll now false (attempt now false none (some "timeout") d.diag);
    }
    | some values ↦ emit fl wall values (node_tags d.equip.items []) (record d {
      diag = poll now true (
          add_frame (quoted tx) (quoted (rx values)) "OK" (some rtt)
            (attempt now true (some rtt) none d.diag));
    })
  ]

  -- A round of `run` without a client whose connection fails.
  unfoldable pub connect_failed : ℕ → String → Driver fl Bool → Driver fl Bool
  connect_failed now url d = record d {
    link = false;
    diag = poll now false (
        add_frame (quoted (joined "CONNECT " url)) (quoted "(연결 실패)") "TIMEOUT" none
          (attempt now false none (some "timeout") d.diag));
  }
