-- ===== src/Mes/Hub.antt =====
-- `WsHub` of src/twin/mes/hub.py: the messages that wait for the clients, and the changes of the PLCs'
-- memory. A message of values keeps its device and its values; `M` is what the others are. Reports that
-- `run` adds from the views are an argument.
use data_gateway.Base.{
  ℕ, ◌+◌, String, Bool, Option, none, some, List, [], ◌∷◌, ◌++◌, map, ◌==◌, if◌then◌else◌, keep,
  count_if,
}
use data_gateway.Base.Dict.{Dict, get, put}
use data_gateway.Base.Key.{ℕ_key, String_key}

-- `{**prev["values"], **msg["values"]}`
unfoldable pub merge : {V : Type 0} → Dict String V → Dict String V → Dict String V
merge prev [] = prev
merge prev ((k, v) ∷ rest) = merge (put k v prev) rest

module _ (V M C : Type 0) where
  pub record Values : Type 0 where
    pub equip : String
    pub values : Dict String V
    pub at : ℕ

  pub data Message : Type 0 where
    of_values : Values → Message
    other : M → Message

  pub record Hub : Type 0 where
    pub clients : List C
    pub pending : Dict String Values
    pub queue : List Message
    pub sent : ℕ

  unfoldable pub publish : Message → Hub → Hub
  unfolding merge
  publish (of_values x) h = record h {
    pending = elim (get x.equip h.pending) [
      | none ↦ put x.equip x h.pending
      | some prev ↦ put x.equip (record x { values = merge prev.values x.values }) h.pending
    ];
  }
  publish (other m) h = record h { queue = h.queue ++ (other m ∷ []) }

  -- The start of a round of `run`: the messages that have come since the last one, and an empty queue.
  unfoldable pub flush : Hub → List Message × Hub
  flush h = (
    h.queue ++ map (λ (e : String × Values). of_values e.1) h.pending,
    record h { pending = []; queue = [] },
  )

  -- `_send_all`: what each client receives; one to which it cannot be sent is dropped.
  unfoldable pub send_all : (C → Bool) → List Message → Hub → Hub
  send_all reaches [] h = h
  send_all reaches (m ∷ ms) h = record h {
    clients = keep reaches h.clients;
    sent = h.sent + count_if reaches h.clients;
  }

-- `zip(prev, cur, strict=True)`: the addresses that have changed, with their new values.
unfoldable pub changes_from : ℕ → List ℕ → List ℕ → Option (List (ℕ × ℕ))
changes_from i [] [] = some []
changes_from i (a ∷ as') (b ∷ bs) = elim (changes_from (i + 1) as' bs) [
  | none ↦ none
  | some rest ↦ (if a == b then some rest else some ((i, b) ∷ rest))
]
changes_from i _ _ = none

-- `_mem_changes` for one PLC: the changes, if it has been read before and has changed; the second
-- `none` is a ValueError.
unfoldable pub mem_changes :
    String → List ℕ → Dict String (List ℕ) → Option (Option (List (ℕ × ℕ))) × Dict String (List ℕ)
unfolding changes_from
mem_changes plc cur prevs =
    let prevs' = put plc cur prevs in
    elim (get plc prevs) [
      | none ↦ (some none, prevs')
      | some prev ↦ elim (changes_from 0 prev cur) [
        | none ↦ (none, prevs')
        | some [] ↦ (some none, prevs')
        | some (c ∷ cs) ↦ (some (some (c ∷ cs)), prevs')
      ]
    ]
