-- ===== src/Diag.antt =====
-- `Diag` of src/twin/common/util.py: the record of one device's communication. Times are readings of
-- the monotonic clock in microseconds, response times are in microseconds too. Wall clock stamps
-- (`last_ok_iso`, `Frame.ts`) are left out.
pub mod Counter
pub mod Down
pub mod History
use data_gateway.Base.{
  ℕ, ◌+◌, ◌-◌, ◌*◌, bit_and, String, Bool, true, false, not, ◌&&◌, ◌||◌, Option, none, some, List,
  [], ◌∷◌, ◌++◌, ltb, leb, ◌==◌, if◌then◌else◌, length, drop, keep, count_if, sum_by,
}
use data_gateway.Base.Dict.{Dict, put, get_or}
use data_gateway.Base.Key.{String_key}
use text.Mathlib.Text.{◌==◌ as text_eq}

pub data Status : Type 0 where
  ok_status delay_status down_status error_status : Status

-- `STATUS_OK, STATUS_DELAY, STATUS_DOWN, STATUS_ERROR = 0, 1, 2, 3`
abbrev pub code : Status → ℕ
code ok_status = 0
code delay_status = 1
code down_status = 2
code error_status = 3

-- One entry of `attempts`: when, whether it succeeded, the response time, the kind of the error.
pub record Attempt : Type 0 where
  pub at : ℕ
  pub ok : Bool
  pub rtt : Option ℕ
  pub err : Option String

pub record Poll : Type 0 where
  pub at : ℕ
  pub ok : Bool

-- `tx` and `rx` of a frame: bytes, or a text.
pub data Shown : Type 0 where
  raw : List ℕ → Shown
  quoted : String → Shown

pub record Frame : Type 0 where
  pub tx : Shown
  pub rx : Shown
  pub result : String
  pub rtt : Option ℕ

pub record Diag : Type 0 where
  pub delay : ℕ
  pub attempts : List Attempt
  pub polls : List Poll
  pub frames : List Frame
  pub consecutive_fail : ℕ
  pub counter : ℕ
  pub errors : Dict String ℕ
  pub ever_ok : Bool

-- `Diag(delay_ms=…)`
abbrev pub new_diag : ℕ → Diag
new_diag delay = record {
  delay = delay;
  attempts = [];
  polls = [];
  frames = [];
  consecutive_fail = 0;
  counter = 0;
  errors = ("timeout", 0) ∷ ("crc", 0) ∷ ("exception", 0) ∷ ("frame", 0) ∷ [];
  ever_ok = false;
}

-- `append` to a `deque(maxlen=n)`: the oldest entry falls out.
abbrev pub push {ℓ} : {A : Type ℓ} → ℕ → List A → A → List A
push n xs x = drop (length xs + 1 - n) (xs ++ (x ∷ []))

unfoldable pub attempt : ℕ → Bool → Option ℕ → Option String → Diag → Diag
attempt now ok rtt err d = record d {
  attempts = push 6000 d.attempts (record { at = now; ok = ok; rtt = rtt; err = err });
  errors = elim err [ none ↦ d.errors | some e ↦ put e (get_or e 0 d.errors + 1) d.errors ];
}

-- `(self.counter + 1) & 0xFFFF or 1`
unfoldable pub next_counter : ℕ → ℕ
next_counter n = if bit_and (n + 1) 0xffff == 0 then 1 else bit_and (n + 1) 0xffff

unfoldable pub poll : ℕ → Bool → Diag → Diag
unfolding next_counter
poll now ok d =
    let polls' = push 4000 d.polls (record { at = now; ok = ok }) in
    if ok
    then record d {
      polls = polls';
      consecutive_fail = 0;
      counter = next_counter d.counter;
      ever_ok = true;
    }
    else record d { polls = polls'; consecutive_fail = d.consecutive_fail + 1 }

unfoldable pub add_frame : Shown → Shown → String → Option ℕ → Diag → Diag
add_frame tx rx result rtt d = record d {
  frames = push 50 d.frames (record { tx = tx; rx = rx; result = result; rtt = rtt });
}

-- The entries of the last `window`: `p[0] >= now - window`.
abbrev pub recent : ℕ → ℕ → List Attempt → List Attempt
recent now window = keep (λ a. leb now (a.at + window))

-- `a[3] in ("crc", "exception", "frame")`
abbrev pub is_bad : Attempt → Bool
is_bad a = elim a.err [
  | none ↦ false
  | some e ↦ text_eq e "crc" || text_eq e "exception" || text_eq e "frame"
]

-- The response times of the successful ones among the last `n` attempts.
abbrev pub rtts : List Attempt → List ℕ
rtts [] = []
rtts (a ∷ as') =
    let rest = rtts as' in elim a.rtt [ none ↦ rest | some t ↦ (if a.ok then t ∷ rest else rest) ]

abbrev pub last {ℓ} : {A : Type ℓ} → ℕ → List A → List A
last n xs = drop (length xs - n) xs

-- `avg_rtt(n)` as the sum and the number of the response times, a fraction.
unfoldable pub avg_rtt : ℕ → Diag → Option (ℕ × ℕ)
avg_rtt n d =
    let ts = rtts (last n d.attempts) in
    if length ts == 0 then none else some (sum_by (λ t. t) ts, length ts)

-- `success_rate(seconds)`, a fraction too
unfoldable pub success_rate : ℕ → ℕ → Diag → Option (ℕ × ℕ)
success_rate now window d =
    let w = keep (λ (p : Poll). leb now (p.at + window)) d.polls in
    if length w == 0 then none else some (count_if (λ (p : Poll). p.ok) w, length w)

abbrev pub minute : ℕ
minute = 60000000

-- More than a tenth of the attempts of the last minute: `w and bad / len(w) > 0.10`.
abbrev pub too_many_bad : ℕ → Diag → Bool
too_many_bad now d =
    let w = recent now minute d.attempts in
    not (length w == 0) && ltb (length w) (count_if is_bad w * 10)

-- `avg is not None and avg > self.delay_ms`
abbrev pub too_slow : Diag → Bool
too_slow d = elim (avg_rtt 5 d) [ none ↦ false | some (sum, n) ↦ ltb (d.delay * n) sum ]

unfoldable pub status : ℕ → Diag → Status
unfolding avg_rtt
status now d =
    if not d.ever_ok || leb 3 d.consecutive_fail
    then down_status
    else if too_many_bad now d
    then error_status
    else if too_slow d
    then delay_status
    else ok_status
