-- ===== src/Diag/Down.antt =====
-- The status of a device of src/twin/common/util.py against the history of its polls.
use data_gateway.Base.{ℕ, ◌≤◌, ◌≡◌, ◌↔◌, ◌⊎◌, true, false, ◌||◌, List, [], ◌∷◌, arith, leb}
use data_gateway.Diag.{Diag, down_status, new_diag, attempt, poll, add_frame, status}
use data_gateway.Diag.History.{
  Event, polled, attempted, framed, run_events, ok_count, failures_from,
}

tracked :
    (history : List Event) (d : Diag)
    → ((run_events history d).consecutive_fail ≡ failures_from d.consecutive_fail history)
      × ((run_events history d).ever_ok ≡ (d.ever_ok || leb 1 (ok_count history)))
unfolding poll attempt add_frame
tracked [] d = ground arith
tracked (polled now true ∷ rest) d = ground (arith, tracked rest (poll now true d))
tracked (polled now false ∷ rest) d = ground (arith, tracked rest (poll now false d))
tracked (attempted now ok rtt err ∷ rest) d = tracked rest (attempt now ok rtt err d)
tracked (framed tx rx result rtt ∷ rest) d = tracked rest (add_frame tx rx result rtt d)

-- A device counts as DOWN exactly if none of its polls has ever succeeded or the last three or more
-- of them failed, whatever attempts and frames were noted in between.
pub status_down :
    (delay now : ℕ) (history : List Event)
    → (status now (run_events history (new_diag delay)) ≡ down_status)
      ↔ ((ok_count history ≡ 0) ⊎ (3 ≤ failures_from 0 history))
unfolding status
status_down delay now history =
    let facts = tracked history (new_diag delay) in (λ h. ground arith, λ h. ground arith)
