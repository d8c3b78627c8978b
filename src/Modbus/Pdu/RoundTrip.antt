-- ===== src/Modbus/Pdu/RoundTrip.antt =====
-- The response parser undoes the response writers, and accepts nothing else.
use data_gateway.Base.{
  ℕ, zero, suc, ◌+◌, ◌*◌, ◌/◌, ◌%◌, ◌≤◌, ◌<◌, bit_and, ◌≡◌, refl, sym, ap, ap₂, ◌∙◌, List, [], ◌∷◌,
  arith, lt→ltb, length, All,
}
use data_gateway.Base.Bits.{bit_and_ffff, bit_or_80, IsByte, IsWord}
use data_gateway.Modbus.Outcome.{ok, err, exception_response, ◌>>=◌}
use data_gateway.Modbus.Pdu.{words_bytes, words_pdu, exception_pdu, unpack_words, parse_words_pdu}

pub length-words_bytes : (ws : List ℕ) → length (words_bytes ws) ≡ length ws * 2
unfolding words_bytes
length-words_bytes [] = refl
length-words_bytes (w ∷ ws) = omega (arith, length-words_bytes ws)

pub words_bytes-IsByte : (ws : List ℕ) → All IsByte (words_bytes ws)
unfolding words_bytes
words_bytes-IsByte [] = tt
words_bytes-IsByte (w ∷ ws) = (omega (arith, bit_and_ffff w), (omega arith, words_bytes-IsByte ws))

pub unpack_words-words_bytes : (ws : List ℕ) → All IsWord ws → unpack_words (words_bytes ws) ≡ ws
unfolding words_bytes unpack_words
unpack_words-words_bytes [] h = refl
unpack_words-words_bytes (w ∷ ws) (small, h) =
    ap₂ ◌∷◌ (omega (arith, bit_and_ffff w)) (unpack_words-words_bytes ws h)

words_bytes-unpack_words :
    (n : ℕ) (bs : List ℕ)
    → length bs ≡ n * 2
    → All IsByte bs
    → (words_bytes (unpack_words bs) ≡ bs) × (length (unpack_words bs) ≡ n)
unfolding words_bytes unpack_words
words_bytes-unpack_words zero [] e h = (refl, refl)
words_bytes-unpack_words (suc n) [] e h = absurd (omega arith)
words_bytes-unpack_words n (b ∷ []) e h = absurd (omega arith)
words_bytes-unpack_words zero (b ∷ c ∷ bs) e h = absurd (omega arith)
words_bytes-unpack_words (suc n) (b ∷ c ∷ bs) e (hb, (hc, h)) =
    let ih = words_bytes-unpack_words n bs (omega arith) h in
    let w = b * 256 + c in
    let hi : bit_and w 0xffff / 256 ≡ b = omega (arith, bit_and_ffff w) in
    let lo : bit_and w 0xffff % 256 ≡ c = omega (arith, bit_and_ffff w) in
    (λ i. hi i ∷ lo i ∷ ih.0 i, omega (arith, ih.1))

-- The response that carries the words `ws`, as it stands on the wire.
pub words_pdu-ok :
    (fc : ℕ) (ws : List ℕ)
    → fc < 256
    → length ws ≤ 127
    → words_pdu fc ws ≡ ok (fc ∷ (length ws * 2) ∷ words_bytes ws)
unfolding words_pdu
words_pdu-ok fc ws h n = rw (lt→ltb fc 256 h, lt→ltb (length ws * 2) 256 (omega arith))

-- What the parser accepts, field by field.
parse_ok :
    (fc n : ℕ) (bs : List ℕ)
    → fc < 128
    → length bs ≡ n * 2
    → parse_words_pdu (fc ∷ n * 2 ∷ bs) fc n ≡ ok (unpack_words bs)
unfolding parse_words_pdu
parse_ok fc n bs h e = ground (arith, bit_or_80 fc h)

-- Parsing the response to a read of at most 127 registers gives back the words, for every function
-- code whose top bit is clear.
pub parse-words_pdu :
    (fc : ℕ) (ws : List ℕ)
    → fc < 128
    → length ws ≤ 127
    → All IsWord ws
    → (words_pdu fc ws >>= λ pdu. parse_words_pdu pdu fc (length ws)) ≡ ok ws
parse-words_pdu fc ws h n words = rw (words_pdu-ok fc ws (omega arith) n) (
    parse_ok fc (length ws) (words_bytes ws) h (length-words_bytes ws)
    ∙ ap ok (unpack_words-words_bytes ws words))

-- An exception response reaches the reader as `ExceptionResponse` with its code.
pub parse-exception_pdu :
    (fc code count : ℕ)
    → fc < 128
    → code < 256
    → (exception_pdu fc code >>= λ pdu. parse_words_pdu pdu fc count)
      ≡ err (exception_response code)
unfolding exception_pdu parse_words_pdu
parse-exception_pdu fc code count h k = ground (arith, bit_or_80 fc h)

parse_ok_parts :
    (fc count f n : ℕ) (bs ws : List ℕ)
    → parse_words_pdu (f ∷ n ∷ bs) fc count ≡ ok ws
    → (f ≡ fc) × (n ≡ count * 2) × (length bs ≡ count * 2) × (ws ≡ unpack_words bs)
unfolding parse_words_pdu
parse_ok_parts fc count f n bs ws h = ground arith

-- Only a well-formed response is accepted: if parsing bytes gives words, there are as many words as
-- were asked for, and the bytes are exactly what `words_pdu` writes for them.
pub parse_words_pdu-exact :
    (fc count : ℕ) (pdu ws : List ℕ)
    → All IsByte pdu
    → parse_words_pdu pdu fc count ≡ ok ws
    → (length ws ≡ count) × (words_pdu fc ws ≡ ok pdu)
parse_words_pdu-exact fc count [] ws bytes h = unfold parse_words_pdu in cc
parse_words_pdu-exact fc count (f ∷ []) ws bytes h = unfold parse_words_pdu in ground arith
parse_words_pdu-exact fc count (f ∷ n ∷ bs) ws (hf, (hn, hb)) h =
    let parts = parse_ok_parts fc count f n bs ws h in
    let back = words_bytes-unpack_words count bs parts.2 hb in
    let len : length ws ≡ count = ap length parts.3 ∙ back.1 in
    let same : words_bytes ws ≡ bs = ap words_bytes parts.3 ∙ back.0 in
    (
      len,
      words_pdu-ok fc ws (omega (arith, parts.0)) (omega (arith, parts.1))
          ∙ (λ i. ok (sym parts.0 i ∷ count_byte len parts.1 i ∷ same i)),
    )
  where
    count_byte : length ws ≡ count → n ≡ count * 2 → length ws * 2 ≡ n
    count_byte e k = omega arith
