-- ===== src/Plc/Server/ReadOnly.antt =====
-- No request changes the D area, and every request that is no read is refused and recorded.
use data_gateway.Base.{
  ℕ, zero, suc, ◌<◌, String, ◌≡◌, refl, ◌∙◌, inl, inr, false, List, [], ◌∷◌, ◌++◌, arith,
}
use data_gateway.Modbus.Outcome.{err, exception_response, ◌>>=◌, Result-cases}
use data_gateway.Modbus.Pdu.{is_read_fc, parse_words_pdu}
use data_gateway.Modbus.Stream.{read_mbap}
use data_gateway.Modbus.Pdu.RoundTrip.{parse-exception_pdu}
use data_gateway.Plc.Server.{Plc, fc_name, handle, answer, connection}

memory-handle : (pdu : List ℕ) (peer : String) (p : Plc) → (handle pdu peer p).1.memory ≡ p.memory
unfolding handle
memory-handle [] peer p = refl
memory-handle (fc ∷ rest) peer p = ground arith

memory-answer :
    (peer : String) (stream : List ℕ) (p : Plc) → (answer peer stream p).1.memory ≡ p.memory
unfolding answer
memory-answer peer stream p = elim (Result-cases (read_mbap stream)) [
  | inl (((tid, unit, pdu), rest), e) ↦ rw (e, answer) (memory-handle pdu peer p)
  | inr (error, e) ↦ rw (e, answer)
]

-- Whatever bytes a peer sends, and however many requests they hold, the D area stays as it was.
pub memory-connection :
    (n : ℕ) (peer : String) (stream : List ℕ) (p : Plc)
    → (connection n peer stream p).2.memory ≡ p.memory
unfolding connection
memory-connection zero peer stream p = refl
memory-connection (suc n) peer stream p = elim (Result-cases (answer peer stream p).0) [
  | inl ((frame, rest), e) ↦
      rw (e, connection)
        (memory-connection n peer rest (answer peer stream p).1 ∙ memory-answer peer stream p)
  | inr (error, e) ↦ rw (e, connection) (memory-answer peer stream p)
]

-- A request that is no read is answered by the exception "illegal function", which the client sees
-- as such, and it is recorded with its peer and its bytes.
pub handle_refuses :
    (fc count : ℕ) (rest : List ℕ) (peer : String) (p : Plc)
    → fc < 128
    → is_read_fc fc ≡ false
    → (((handle (fc ∷ rest) peer p).0 >>= λ pdu. parse_words_pdu pdu fc count)
        ≡ err (exception_response 1))
      × ((handle (fc ∷ rest) peer p).1.write_rejections
          ≡ p.write_rejections
            ++ (record { fc = fc; name = fc_name fc; peer = peer; pdu = fc ∷ rest } ∷ []))
unfolding handle
handle_refuses fc count rest peer p h e =
    (rw e (parse-exception_pdu fc 1 count h (omega arith)), rw e refl)
