-- ===== src/Examples/Field.antt =====
-- Examples of the injected faults.
use data_gateway.Base.{String, ◌≡◌, refl, Bool, true, false, none, some, [], ◌∷◌, arith}
use data_gateway.Base.Dict.{get, put}
use data_gateway.Base.Key.{ℕ_key, String_key, pair_key}
use data_gateway.Field.Faults.{
  Fault, FaultManager, fixed_targets, has_params, is_valid, add, active, first_of, find,
}
use data_gateway.Modbus.Outcome.{ok}
use data_gateway.Plc.Link.{ReadResult, new_link, rtu_read}
use data_gateway.Field.Device.{read_registers}
use data_gateway.Field.Server.{Device, bus_peer}
use data_gateway.Field.Server.Quiet.{IsQuiet}
use data_gateway.Field.Server.Reads.{rtu_read-bus}

abbrev no_faults : FaultManager
no_faults = record { faults = []; seq = 1; targets = fixed_targets }

abbrev link_down : Fault
link_down = record {
  target = "EDGE-MES";
  type = "mes_link_down";
  params = [];
  created = 100;
  expires = some 130;
}

abbrev one_fault : FaultManager
one_fault = (add 100 "EDGE-MES" "mes_link_down" [] (some 30) no_faults).1

found_at_129 : (find 129 "mes_link_down" "EDGE-MES" one_fault).0 ≡ some link_down
unfolding add is_valid has_params find active first_of get put
found_at_129 = refl

gone_at_130 : (find 130 "mes_link_down" "EDGE-MES" one_fault).0 ≡ none
unfolding add is_valid has_params find active first_of get put
gone_at_130 = refl

abbrev pump : Device
pump = record { code = "PMP1"; regs = ((4, 0), 11) ∷ ((4, 1), 65535) ∷ [] }

-- At 120 the fault of the link to the MES is active, but none of the bus or the pump.
one_fault-IsQuiet : IsQuiet 120 "BUS1" "PMP1" one_fault
unfolding add is_valid has_params find active first_of get put
one_fault-IsQuiet = record { whole_bus = refl; connected = refl; fast = refl; intact = refl }

two_registers : read_registers 4 0 2 pump.regs ≡ ok (11 ∷ 65535 ∷ [])
unfolding read_registers get
two_registers = refl

abbrev no_number : String → Bool
no_number text = false

rtu_read-bus_example :
    (r : ReadResult) × ((rtu_read
        (bus_peer no_number 900 120 "BUS1" true ((5, pump) ∷ []) one_fault)
        300000
        5
        4
        0
        2
        new_link).0
      ≡ ok r)
    × (r.words ≡ 11 ∷ 65535 ∷ [])
unfolding get
rtu_read-bus_example =
    rtu_read-bus no_number 900 300000 120 5 4 0 2 "BUS1" true ((5, pump) ∷ []) pump
      (11 ∷ 65535 ∷ []) one_fault new_link (omega arith) refl (omega arith) (omega arith)
      (omega arith) one_fault-IsQuiet refl two_registers (omega arith, (omega arith, tt))
