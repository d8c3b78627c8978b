-- ===== src/Diag/History.antt =====
-- What happens to a `Diag` of src/twin/common/util.py: polls, with attempts and frames between them.
use data_gateway.Base.{ℕ, ◌+◌, String, Bool, true, false, Option, List, [], ◌∷◌}
use data_gateway.Diag.{Shown, Diag, attempt, poll, add_frame}

-- One call of `poll`, `attempt` or `frame`.
pub data Event : Type 0 where
  polled : ℕ → Bool → Event
  attempted : ℕ → Bool → Option ℕ → Option String → Event
  framed : Shown → Shown → String → Option ℕ → Event

abbrev pub happens : Event → Diag → Diag
happens (polled now ok) d = poll now ok d
happens (attempted now ok rtt err) d = attempt now ok rtt err d
happens (framed tx rx result rtt) d = add_frame tx rx result rtt d

-- The calls in the order in which they are made.
abbrev pub run_events : List Event → Diag → Diag
run_events [] d = d
run_events (e ∷ rest) d = run_events rest (happens e d)

-- How many of the polls succeeded.
abbrev pub ok_count : List Event → ℕ
ok_count [] = 0
ok_count (polled now true ∷ rest) = 1 + ok_count rest
ok_count (_ ∷ rest) = ok_count rest

-- How many polls at the end of the history failed, after `n` failures before it.
abbrev pub failures_from : ℕ → List Event → ℕ
failures_from n [] = n
failures_from n (polled now true ∷ rest) = failures_from 0 rest
failures_from n (polled now false ∷ rest) = failures_from (n + 1) rest
failures_from n (attempted _ _ _ _ ∷ rest) = failures_from n rest
failures_from n (framed _ _ _ _ ∷ rest) = failures_from n rest
