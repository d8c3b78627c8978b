-- ===== src/Examples/Plc.antt =====
-- Examples of the diagnostics, the D area, the PLC's server and the links.
use data_gateway.Base.{
  ℕ, zero, suc, ◌-◌, ◌≤◌, ◌≡◌, refl, ◌↔◌, ◌⊎◌, true, false, none, some, List, [], ◌∷◌, arith,
  length, take, drop, replicate, All,
}
use data_gateway.Base.Bits.{IsWord}
use data_gateway.Base.Dict.{get}
use data_gateway.Base.Key.{ℕ_key, String_key, pair_key}
use data_gateway.Modbus.Outcome.{ok, err, timeout_err, ◌>>=◌}
use data_gateway.Modbus.Crc.{shift, shifts, crc_from, crc16, with_crc, crc_ok}
use data_gateway.Modbus.Pdu.{read_pdu, rtu_read_request, unpack_words, parse_words_pdu}
use data_gateway.Modbus.Stream.{read_rtu_frame, mbap, at, readexactly, read_response_rest}
use data_gateway.Diag.{new_diag, status, down_status}
use data_gateway.Diag.History.{Event, polled, attempted, run_events, ok_count, failures_from}
use data_gateway.Diag.Down.{status_down}
use data_gateway.Modbus.Value.{ItemType}
use data_gateway.Plc.Scanner.{Slot, pack_values, read_groups}
use data_gateway.Plc.Scanner.Packs.{reads_of, pack_values-read_groups}
use data_gateway.Plc.Memory.{mem_words, blank, read}
use data_gateway.Plc.Memory.Laws.{IsMemory}
use data_gateway.Plc.Server.{Plc, handle, connection}
use data_gateway.Plc.Server.ReadOnly.{memory-connection}
use data_gateway.Plc.Server.Serves.{handle_serves}
use data_gateway.Plc.Link.{
  Peer, ReadResult, new_link, silent, answers, tcp_read, tcp_exchange, rtu_read, rtu_exchange,
  accept_rtu,
}
use data_gateway.Plc.Link.Closes.{tcp_read_closes, rtu_read-checked}
use data_gateway.Plc.Link.Served.{plc_peer, tcp_read-plc}

-- A poll that fails between two that succeed, with an attempt before it.
abbrev mixed : List Event
mixed =
    polled 10 true ∷ attempted 15 false none (some "crc") ∷ polled 20 false ∷ polled 30 true ∷ []

status_down_example :
    (status 99 (run_events mixed (new_diag 250)) ≡ down_status)
    ↔ ((ok_count mixed ≡ 0) ⊎ (3 ≤ failures_from 0 mixed))
status_down_example = status_down 250 99 mixed

All-replicate : (n : ℕ) → All IsWord (replicate n 0)
All-replicate zero = tt
All-replicate (suc n) = (omega arith, All-replicate n)

length-replicate : (n : ℕ) → length {A = ℕ} (replicate n 0) ≡ n
length-replicate zero = refl
length-replicate (suc n) = omega (arith, length-replicate n)

abbrev blank_plc : Plc
blank_plc = record { memory = blank; write_rejections = [] }

blank-IsMemory : IsMemory blank
blank-IsMemory = record { words = All-replicate mem_words }

memory-connection_example :
    (connection 2 "10.0.0.7"
      (0 ∷ 1 ∷ 0 ∷ 0 ∷ 0 ∷ 6 ∷ 1 ∷ 6 ∷ 0 ∷ 5 ∷ 0 ∷ 9 ∷ [])
      blank_plc).2.memory
    ≡ blank_plc.memory
memory-connection_example =
    memory-connection 2 "10.0.0.7" (0 ∷ 1 ∷ 0 ∷ 0 ∷ 0 ∷ 6 ∷ 1 ∷ 6 ∷ 0 ∷ 5 ∷ 0 ∷ 9 ∷ []) blank_plc

handle_serves_example :
    (read_pdu 3 100 9 >>= λ req. (handle req "edge" blank_plc).0 >>= λ pdu. parse_words_pdu pdu 3 9)
    ≡ ok (read 100 9 blank)
handle_serves_example =
    handle_serves 3 100 9 "edge" blank_plc refl (omega arith, omega arith, omega arith)
      blank-IsMemory (length-replicate mem_words)

tcp_read-plc_example :
    (r : ReadResult) × ((tcp_read (plc_peer 40 "edge" blank_plc) 7 1 3 100 9 new_link).0 ≡ ok r)
    × (r.words ≡ read 100 9 blank)
tcp_read-plc_example =
    tcp_read-plc 40 7 1 3 100 9 "edge" blank_plc new_link (omega arith) refl
      (omega arith, omega arith, omega arith) blank-IsMemory (length-replicate mem_words)

-- A device that does not answer.
abbrev silent_peer : Peer
silent_peer req = silent

timed_out : (tcp_read silent_peer 7 1 3 100 9 new_link).0 ≡ err timeout_err
unfolding tcp_read tcp_exchange read_pdu mbap
timed_out = refl

tcp_read_closes_example : (tcp_read silent_peer 7 1 3 100 9 new_link).1.is_open ≡ false
tcp_read_closes_example =
    tcp_read_closes silent_peer 7 1 3 100 9 new_link timeout_err timed_out refl

-- A device that answers every RTU request with the word 5 of slave 1.
abbrev five : List ℕ
five = 1 ∷ 3 ∷ 2 ∷ 0 ∷ 5 ∷ 0x78 ∷ 0x47 ∷ []

abbrev five_peer : Peer
five_peer req = answers 40 five

abbrev five_read : ReadResult
five_read = record {
  words = 5 ∷ [];
  tx = with_crc (1 ∷ 3 ∷ 0 ∷ 0 ∷ 0 ∷ 1 ∷ []);
  rx = five;
  rtt = 40;
}

five_answered : (rtu_read five_peer 300000 1 3 0 1 new_link).0 ≡ ok five_read
unfolding rtu_read rtu_exchange accept_rtu rtu_read_request read_pdu read_rtu_frame
    read_response_rest readexactly crc_ok crc16 crc_from shift shifts parse_words_pdu unpack_words
five_answered = refl

rtu_read-checked_example :
    (crc_ok five ≡ true)
    × (at 0 five ≡ 1)
    × (parse_words_pdu (take (length five - 3) (drop 1 five)) 3 1 ≡ ok (5 ∷ []))
rtu_read-checked_example =
    rtu_read-checked five_peer 300000 1 3 0 1 new_link five_read five_answered

-- Two input registers with a gap, and a holding register between them.
abbrev slots : List Slot
slots =
    record { reg = record { is_input = true; address = 4 }; type = ItemType.uint32 }
    ∷ record { reg = record { is_input = false; address = 0 }; type = ItemType.int16 }
    ∷ record { reg = record { is_input = true; address = 1 }; type = ItemType.uint16 }
    ∷ []

abbrev registers : ℕ → List ℕ
registers fc = fc ∷ 11 ∷ 12 ∷ 13 ∷ 14 ∷ 15 ∷ []

pack_values-read_groups_example :
    (get 4 (read_groups slots) ≡ some (1, 6))
    × (pack_values slots (reads_of registers (read_groups slots)) ≡ ok (14 ∷ 15 ∷ 3 ∷ 11 ∷ []))
pack_values-read_groups_example = pack_values-read_groups registers slots 4
