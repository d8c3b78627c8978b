-- ===== src/Config/Check/Devices.antt =====
-- The loops of `validate_semantics` of src/twin/common/config.py over the buses and the equipment.
use data_gateway.Base.{ℕ, String, not, ◌&&◌, none, some, List, [], ◌∷◌, ltb, if◌then◌else◌}
use data_gateway.Base.Dict.{Dict, put, has}
use data_gateway.Base.Key.{ℕ_key, String_key, pair_key}
use data_gateway.Base.Floats.{Floats}
use data_gateway.Config.{Item, Equip, Kind, bus_kind, plc_tcp_kind, kind_of, present, value_words}
use data_gateway.Config.Twin.{Bus, TwinConfig}
use data_gateway.Config.Check.{
  unknown_plc, unknown_link, no_bus_or_slave, slave_taken, no_connection, no_register, no_node,
  too_many_words, Checked, refused, passed, ◌>>=◌, refuse_if, is_none, has_by, on_plc, is_bus,
  text_of, needs_reg, is_opcua,
}

-- `seen_slave`: which device has the slave address on the bus.
abbrev pub Slaves : Type 0
Slaves = Dict (String × ℕ) String

module _ (fl : Floats) where
  -- The loop over the buses.
  unfoldable pub check_buses : TwinConfig fl → List (String × Bus) → Checked (Unit {0})
  check_buses cfg [] = passed tt
  check_buses cfg ((bid, bus) ∷ rest) =
      let more = check_buses cfg rest in
      refuse_if (not (has bus.plc cfg.plcs)) (unknown_plc bid) >>= λ _.
      refuse_if (not (has bus.link cfg.ports) && not (present bus.endpoint)) (unknown_link bid)
      >>= λ _. more

  -- `e.via` against the kind of the connection
  unfoldable pub check_via : TwinConfig fl → Equip fl → Slaves → Checked Slaves
  check_via cfg e seen = elim (kind_of e.via) [
    | bus_kind ↦ elim e.via.slave [
      | none ↦ refused (no_bus_or_slave e.code)
      | some slave ↦
          let key : String × ℕ = (text_of e.via.bus, slave) in
          if not (has_by e.via.bus cfg.buses)
          then refused (no_bus_or_slave e.code)
          else if has key seen
          then refused (slave_taken e.code)
          else passed (put key e.code seen)
    ]
    | plc_tcp_kind ↦
        if has_by e.via.plc_tcp cfg.plcs then passed seen else refused (unknown_plc e.code)
    | _ ↦ if is_none e.via.edge then refused (no_connection e.code) else passed seen
  ]

  unfoldable pub check_items : Kind → String → List (Item fl) → Checked (Unit {0})
  check_items k code [] = passed tt
  check_items k code (it ∷ its) =
      let more = check_items k code its in
      refuse_if (needs_reg k && is_none it.reg) (no_register code) >>= λ _.
      refuse_if (is_opcua k && is_none it.node) (no_node code) >>= λ _. more

  -- `VALUE_WORDS`
  abbrev pub max_value_words : ℕ
  max_value_words = 6

  -- One round of the loop over the equipment.
  unfoldable pub check_equip : TwinConfig fl → Equip fl → Slaves → Checked Slaves
  unfolding check_via check_items
  check_equip cfg e seen =
      let k = kind_of e.via in
      check_via cfg e seen >>= λ seen'.
      refuse_if
        (not (is_bus k)
          && present e.via.link
          && not (has_by e.via.link cfg.ports)
          && not (present e.via.endpoint))
        (unknown_link e.code)
      >>= λ _. check_items k e.code e.items >>= λ _.
          refuse_if (on_plc k && ltb max_value_words (value_words fl e)) (too_many_words e.code)
          >>= λ _. passed seen'

  unfoldable pub check_equipment : TwinConfig fl → List (Equip fl) → Slaves → Checked (Unit {0})
  unfolding check_equip
  check_equipment cfg [] seen = passed tt
  check_equipment cfg (e ∷ es) seen =
      check_equip cfg e seen >>= λ seen'. check_equipment cfg es seen'
