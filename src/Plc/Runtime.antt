-- ===== src/Plc/Runtime.antt =====
-- `PlcRuntime._build`, `_heartbeat` and `_slave_mirror`, and the rounds of `BusScanner.run` of
-- src/twin/plc/runtime.py. A link is known by what it is made from; times are in microseconds.
use data_gateway.Base.{
  ℕ, ◌+◌, ◌*◌, min, max, bit_and, bit_or, String, Bool, true, false, not, ◌&&◌, Option, none, some,
  List, [], ◌∷◌, ◌++◌, leb, if◌then◌else◌, take, count_if,
}
use data_gateway.Base.Dict.{Dict, get, get_or}
use data_gateway.Base.Key.{ℕ_key, String_key}
use data_gateway.Base.Floats.{Floats}
use text.Mathlib.Text.{◌==◌ as text_eq}
use data_gateway.Modbus.Outcome.{Result, ok, err, key_error, assertion_error, ◌>>=◌, kind}
use data_gateway.Config.{Equip, plc_tcp_kind, kind_of, effective_delay_ms}
use data_gateway.Config.Twin.{Bus, TwinConfig, port}
use data_gateway.Diag.{Diag, Status, ok_status, down_status, code, new_diag, status}
use data_gateway.Plc.Memory.{Memory, write}
use data_gateway.Plc.Link.{ReadResult}

-- What `make_rtu_link` and `ModbusTcpLink` are given; the host is the same for all.
pub data LinkOf : Type 0 where
  rtu_link : Option ℕ → Option String → ℕ → LinkOf
  tcp_link : ℕ → LinkOf

module _ (fl : Floats) where
  -- A `Point` as `_build` makes it. The time-out is in milliseconds.
  pub record Site : Type 0 where
    pub equip : Equip fl
    pub base : ℕ
    pub link : LinkOf
    pub unit : ℕ
    pub timeout_ms : ℕ
    pub retries : ℕ
    pub diag : Diag

  -- A `BusScanner`: its name and its points.
  pub record Scanner : Type 0 where
    pub name : String
    pub sites : List Site

  -- `e.via.bus == bid`
  abbrev pub is_on : String → Option String → Bool
  is_on bid none = false
  is_on bid (some b) = text_eq b bid

  -- `blocks[e.code]`
  abbrev pub block_of : String → Dict String ℕ → Result ℕ
  block_of name blocks = elim (get name blocks) [ none ↦ err key_error | some base ↦ ok base ]

  -- The points of one bus.
  unfoldable pub bus_sites :
      TwinConfig fl → Dict String ℕ → String → Bus → List (Equip fl) → Result (List Site)
  bus_sites cfg blocks bid bus [] = ok []
  bus_sites cfg blocks bid bus (e ∷ es) =
      let rest = bus_sites cfg blocks bid bus es in
      if not (is_on bid e.via.bus) then rest else elim e.via.slave [
        | none ↦ err assertion_error
        | some slave ↦
            let site : ℕ → Site = λ base. record {
              equip = e;
              base = base;
              link = rtu_link (get bus.link cfg.ports) bus.endpoint bus.baud;
              unit = slave;
              timeout_ms = bus.timeout_ms;
              retries = bus.retries;
              diag = new_diag (effective_delay_ms fl e * 1000);
            } in
            block_of e.code blocks >>= λ base. rest >>= λ sites. ok (site base ∷ sites)
      ]

  -- The scanners of the buses of the PLC.
  unfoldable pub bus_scanners :
      TwinConfig fl → Dict String ℕ → String → List (String × Bus) → Result (List Scanner)
  unfolding bus_sites
  bus_scanners cfg blocks plc [] = ok []
  bus_scanners cfg blocks plc ((bid, bus) ∷ rest) =
      let more = bus_scanners cfg blocks plc rest in
      if not (text_eq bus.plc plc)
      then more
      else (bus_sites cfg blocks bid bus cfg.equipment >>= λ sites.
          more >>= λ scanners. ok (record { name = bid; sites = sites } ∷ scanners))

  -- `e.kind == "plc_tcp" and e.via.plc_tcp == self.id`
  abbrev pub is_eth_of : String → Equip fl → Bool
  is_eth_of plc e = elim (kind_of e.via) [ plc_tcp_kind ↦ is_on plc e.via.plc_tcp | _ ↦ false ]

  -- The points on the PLC's own network.
  unfoldable pub eth_sites :
      TwinConfig fl → Dict String ℕ → String → List (Equip fl) → Result (List Site)
  eth_sites cfg blocks plc [] = ok []
  eth_sites cfg blocks plc (e ∷ es) =
      let rest = eth_sites cfg blocks plc es in
      if not (is_eth_of plc e) then rest else elim e.via.link [
        | none ↦ err assertion_error
        | some name ↦
            let site : ℕ → ℕ → Site = λ p base. record {
              equip = e;
              base = base;
              link = tcp_link p;
              unit = e.via.unit;
              timeout_ms = 500;
              retries = 1;
              diag = new_diag (effective_delay_ms fl e * 1000);
            } in
            port fl name cfg >>= λ p.
            block_of e.code blocks >>= λ base. rest >>= λ sites. ok (site p base ∷ sites)
      ]

  -- `if eth: self.scanners.append(…)`
  abbrev pub eth_scanner : List Site → List Scanner
  eth_scanner [] = []
  eth_scanner (s ∷ ss) = record { name = "ETH"; sites = s ∷ ss } ∷ []

  -- `_build`
  unfoldable pub build : String → TwinConfig fl → Result (List Scanner)
  unfolding bus_scanners eth_sites
  build plc cfg =
      let blocks = get_or plc [] cfg.plc_map.blocks in
      bus_scanners cfg blocks plc cfg.buses >>= λ scanners.
      eth_sites cfg blocks plc cfg.equipment >>= λ eth. ok (scanners ++ eth_scanner eth)

-- `s != STATUS_OK`
abbrev pub is_ok_status : Status → Bool
is_ok_status ok_status = true
is_ok_status _ = false

abbrev pub all_ok : ℕ → List Diag → Bool
all_ok now [] = true
all_ok now (d ∷ ds) = is_ok_status (status now d) && all_ok now ds

-- `bits |= 1 << i` for the scanners with a device that is not OK
abbrev pub fault_bits : ℕ → ℕ → List (List Diag) → ℕ
fault_bits now bit [] = 0
fault_bits now bit (ds ∷ rest) =
    if all_ok now ds
    then fault_bits now (bit * 2) rest
    else bit_or bit (fault_bits now (bit * 2) rest)

-- One round of `_heartbeat`: the next heartbeat, and the memory. The diagnoses are those of the
-- scanners' points, `scan` is the longest scan time in milliseconds. The round ends where a write
-- raises.
unfoldable pub beat :
    ℕ → ℕ → List (List Diag) → List Diag → ℕ → ℕ → Memory → ℕ × Result (Unit {0}) × Memory
beat now d scanners points scan hb m =
    let hb' = bit_and (hb + 1) 0xffff in
    let count = count_if (λ (x : Diag). is_ok_status (status now x)) points in
    let (r₁, m₁) = write now d (hb' ∷ fault_bits now 1 (take 3 scanners) ∷ []) m in
    let (r₂, m₂) = write now (d + 3) (min scan 0xffff ∷ count ∷ []) m₁ in
    elim r₁ [ err e ↦ (hb', err e, m₁) | ok _ ↦ (hb', r₂, m₂) ]

-- `self.slave_link_ok = ok`, and the status of the slave in the diagnosis area
unfoldable pub mark_slave : ℕ → ℕ → Bool → Memory → Result Bool × Memory
mark_slave now d good m =
    let (r, m') = write now (d + 5) ((if good then code ok_status else code down_status) ∷ []) m in
    (r >>= λ _. ok good, m')

-- One round of `_slave_mirror`: whether the slave's heartbeat was read, and the memory. `cut` is
-- whether the link between the PLCs is cut; the read is what the link returns.
unfoldable pub mirror : ℕ → ℕ → Bool → Result ReadResult → Memory → Result Bool × Memory
unfolding mark_slave
mirror now d cut answer m = if cut then mark_slave now d false m else elim answer [
  | ok x ↦
      let (r, m') = write now (d + 2) x.words m in
      elim r [ err e ↦ (err e, m') | ok _ ↦ mark_slave now d true m' ]
  | err e ↦ elim (kind e) [ none ↦ (err e, m) | some _ ↦ mark_slave now d false m ]
]

-- `p.next_due <= now`
abbrev pub is_due : ℕ → ℕ → Bool
is_due now next_due = leb next_due now

-- `max(p.next_due + poll_ms / 1000, time.monotonic())`
abbrev pub due_again : ℕ → ℕ → ℕ → ℕ
due_again now next_due poll_ms = max (next_due + poll_ms * 1000) now

-- One round of `run` over the points, given when each is due and how often it is polled: which are
-- polled, and when they are due next.
unfoldable pub scan_round : ℕ → ℕ → List (ℕ × ℕ) → List (Bool × ℕ)
scan_round now later [] = []
scan_round now later ((next_due, poll_ms) ∷ rest) =
    (if is_due now next_due then (true, due_again later next_due poll_ms) else (false, next_due))
    ∷ scan_round now later rest
