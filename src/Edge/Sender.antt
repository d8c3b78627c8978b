-- ===== src/Edge/Sender.antt =====
-- `EdgeCollector` of src/twin/edge/collector.py: `_on_sample`, `_priority`, and one round of `_sender` in
-- its two halves, before the POST and after it. Durations are in milliseconds. The event that wakes
-- the sender and the log are left out.
pub mod Sampled
use data_gateway.Base.{
  ℕ, ◌+◌, ◌*◌, min, String, Bool, true, false, not, ◌&&◌, ◌||◌, Option, none, some, List, [], ◌∷◌,
  ◌++◌, map, ltb, ◌==◌, if◌then◌else◌, length,
}
use data_gateway.Base.Dict.{Dict, get, put}
use data_gateway.Base.Key.{String_key}
use data_gateway.Base.Floats.{Floats}
use data_gateway.Edge.Sample.{RawItem, Sample, to_raw_items}
use data_gateway.Edge.Filter.{NoiseFilter, apply}
use data_gateway.Edge.Buffer.{Row, Buffer, enqueue, next_batch, member, ack, mark_failed_all}

-- `PRIORITY_NORMAL, PRIORITY_URGENT`
abbrev pub priority_normal : ℕ
priority_normal = 1

abbrev pub priority_urgent : ℕ
priority_urgent = 0

-- `"Y" if (att > 0 or buffered) else "N"`
abbrev pub resend_flag : Row → Bool
resend_flag r = ltb 0 r.attempts || r.buffered

-- The items of a batch with their flags, and how many of them are sent again.
unfoldable pub flagged : List Row → List RawItem × ℕ
flagged [] = ([], 0)
flagged (r ∷ rows) =
    let (items, resent) = flagged rows in
    let flag = resend_flag r in
    (
      map (λ (it : RawItem). record it { resend_yn = flag }) r.payload ++ items,
      (if flag then length r.payload else 0) + resent,
    )

-- What the sender keeps while a POST is under way.
pub record Request : Type 0 where
  pub row_ids : List ℕ
  pub items : List RawItem
  pub resent : ℕ

unfoldable pub request_of : List Row → Request
unfolding flagged
request_of batch = record {
  row_ids = map (λ (r : Row). r.id) batch;
  items = (flagged batch).0;
  resent = (flagged batch).1;
}

-- The first half of a round: nothing if the buffer has no rows.
unfoldable pub prepare : ℕ → Buffer → Option Request
prepare batch_max b =
    let batch = next_batch batch_max b in
    if length batch == 0 then none else some (request_of batch)

-- `all(it["msg_id"] in accepted for it in items)`
unfoldable pub is_accepted : List ℕ → List RawItem → Bool
is_accepted accepted [] = true
is_accepted accepted (it ∷ items) = member it.msg_id accepted && is_accepted accepted items

module _ (fl : Floats) where
  open fl use {Float, lt}

  pub record Edge : Type 0 where
    pub filter : NoiseFilter fl
    pub buffer : Buffer
    pub link_ok : Option Bool
    pub backoff : ℕ
    pub md_ng : Dict String Float
    pub samples_in : ℕ

  -- `self.link_ok is False`
  abbrev pub link_is_down : Edge → Bool
  link_is_down e = elim e.link_ok [ none ↦ false | some up ↦ not up ]

  -- `_priority`
  unfoldable pub priority : Sample fl → Edge → ℕ × Edge
  priority s e = elim (get "ng_cnt" s.values) [
    | none ↦ (priority_normal, e)
    | some n ↦
        let e' = record e { md_ng = put s.equip.code n e.md_ng } in
        elim (get s.equip.code e.md_ng) [
          | none ↦ (priority_normal, e')
          | some prev ↦ if lt prev n then (priority_urgent, e') else (priority_normal, e')
        ]
  ]

  -- `_on_sample`; where `to_raw_items` raises, nothing is enqueued.
  unfoldable pub on_sample : ℕ → Sample fl → Edge → Edge
  unfolding priority
  on_sample now s e =
      let (s', f) = apply fl s e.filter in
      let e' = record e { samples_in = e.samples_in + 1; filter = f } in
      let (prio, e'') = priority s' e' in
      if length s'.values == 0 then e' else elim (to_raw_items fl s') [
        | none ↦ e''
        | some items ↦ record e'' {
          buffer = (enqueue now items prio (link_is_down e'') e''.buffer).1;
        }
      ]

  abbrev pub succeed : Request → Edge → Edge
  succeed req e = record e {
    link_ok = some true;
    backoff = 1000;
    buffer = ack req.row_ids (length req.items) req.resent e.buffer;
  }

  abbrev pub fail : ℕ → Edge → Edge
  fail backoff_max e = record e {
    link_ok = some false;
    backoff = min (e.backoff * 2) backoff_max;
    buffer = mark_failed_all e.buffer;
  }

  -- The second half of a round: the ids that the MES accepted, or none where the POST failed.
  unfoldable pub conclude : ℕ → Option (List ℕ) → Request → Edge → Edge
  unfolding is_accepted
  conclude backoff_max reply req e = elim reply [
    | none ↦ fail backoff_max e
    | some accepted ↦ (if is_accepted accepted req.items then succeed req e else fail backoff_max e)
  ]
