-- ===== src/Tests/FlowRuns.antt =====
-- The theorems on `Flow` at concrete flows.
use packet_dpi_engine.Base.{◌≡◌, refl, [], ◌∷◌, arith, true}
use packet_dpi_engine.Flow.Address.{v4}
use packet_dpi_engine.Flow.Key.{create, forward, reverse}
use packet_dpi_engine.Flow.KeyLaws.{create_symmetric}
use packet_dpi_engine.Flow.Tcp.{TcpMachine, new_machine, is_closing, closed}
use packet_dpi_engine.Flow.Stats.{FlowStats, no_traffic}
use packet_dpi_engine.Flow.TcpLaws.{
  Segment, step, run, IsConsistent, run-new_machine-IsConsistent, two_fins_close,
}
use packet_dpi_engine.Tests.Packets.{host_a, host_b, syn_flags, syn_ack_flags, ack_flags, fin_flags}

create_symmetric_example :
    (create (v4 host_a) 5 (v4 host_b) 80 6).0 ≡ (create (v4 host_b) 80 (v4 host_a) 5 6).0
create_symmetric_example =
    create_symmetric (v4 host_a) (v4 host_b) 5 80 6 (omega arith) (omega arith)

abbrev some_traffic : FlowStats
some_traffic = record {
  first_seen_us = 3;
  last_seen_us = 9;
  forward = record { packets = 1; bytes = 60; payload_bytes = 6 };
  reverse = no_traffic;
}

abbrev syn : Segment
syn = record { flags = syn_flags; dir = forward; payload_len = 0 }

abbrev syn_ack : Segment
syn_ack = record { flags = syn_ack_flags; dir = reverse; payload_len = 0 }

abbrev ack : Segment
ack = record { flags = ack_flags; dir = forward; payload_len = 3 }

abbrev fin : Segment
fin = record { flags = fin_flags; dir = forward; payload_len = 0 }

abbrev fin_back : Segment
fin_back = record { flags = fin_flags; dir = reverse; payload_len = 0 }

abbrev open_machine : TcpMachine
open_machine = run new_machine (syn ∷ syn_ack ∷ ack ∷ [])

run-new_machine-IsConsistent_example : IsConsistent (run new_machine (syn ∷ fin ∷ ack ∷ []))
run-new_machine-IsConsistent_example = run-new_machine-IsConsistent (syn ∷ fin ∷ ack ∷ [])

two_fins_close_example :
    (is_closing (run (step new_machine fin) (ack ∷ [])).state ≡ true)
    × ((step (run (step new_machine fin) (ack ∷ [])) fin_back).state ≡ closed)
unfolding new_machine
two_fins_close_example =
    two_fins_close new_machine fin (ack ∷ []) fin_back refl refl refl refl refl ((refl, refl), tt)
      refl refl (λ e. cc)
