-- ===== src/Edge/Reader/Wire.antt =====
-- The link of `PlcReader` (src/twin/edge/collectors.py): `ModbusTcpLink` with the PLC's server at its other end.
use data_gateway.Base.{ℕ, ◌+◌, String, ◌≡◌, refl, arith, length}
use data_gateway.Modbus.Outcome.{Result}
use data_gateway.Plc.Memory.{mem_words, read}
use data_gateway.Plc.Memory.Laws.{IsMemory}
use data_gateway.Plc.Server.{Plc}
use data_gateway.Plc.Link.{ReadResult, Link, tcp_read}
use data_gateway.Plc.Link.Served.{plc_peer, tcp_read-plc}
use data_gateway.Edge.Reader.Serves.{Delivers}

-- `self.link.read(1, 3, addr, count, self.timeout)`. The state is the link, and the counter of
-- transaction ids.
abbrev pub wire_read : ℕ → String → Plc → ℕ → ℕ → Link × ℕ → Result ReadResult × (Link × ℕ)
wire_read rtt name p addr count (l, next) =
    let (r, l') = tcp_read (plc_peer rtt name p) next 1 3 addr count l in (r, (l', next + 1))

-- The link of the program delivers the D area of the PLC, whatever it has done before.
pub wire_read-Delivers :
    (rtt : ℕ) (name : String) (p : Plc)
    → IsMemory p.memory
    → length p.memory.words ≡ mem_words
    → Delivers (wire_read rtt name p) p.memory.words
unfolding read
wire_read-Delivers rtt name p valid size a n (l, next) lo hi inside =
    tcp_read-plc rtt next 1 3 a n name p l (omega arith) refl (lo, hi, omega (arith, inside, size))
      valid size
