-- ===== src/Tests/ThreatRuns.antt =====
-- The theorem on the ring of alerts at three items in two places.
use packet_dpi_engine.Base.{List, ℕ, ◌≡◌, [], ◌∷◌, some, arith}
use packet_dpi_engine.Threat.AlertBuffer.{new_buffer, get_snapshot}
use packet_dpi_engine.Threat.AlertBufferLaws.{push_all, get_snapshot-push_all}

abbrev three_items : List ℕ
three_items = 5 ∷ 6 ∷ 7 ∷ []

get_snapshot-push_all_example :
    get_snapshot (push_all three_items (new_buffer 0 2)) ≡ some (6 ∷ 7 ∷ [])
get_snapshot-push_all_example = get_snapshot-push_all 0 2 three_items (omega arith)
