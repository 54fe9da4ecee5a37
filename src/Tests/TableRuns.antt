-- ===== src/Tests/TableRuns.antt =====
-- The theorems on the flow table at a table with one packet.
use packet_dpi_engine.Base.{◌≤◌, arith, ◌+◌, ◌≡◌, refl, [], true, false, none, some, length}
use packet_dpi_engine.Dpi.Types.{new_l7, tls}
use packet_dpi_engine.Dpi.TlsNames.{encode_extension, encode_extensions}
use packet_dpi_engine.Dpi.TlsHello.{
  encode_client_hello, hello_body, session_block, cipher_block, compression_block, extension_block,
  extensions_of,
}
use packet_dpi_engine.Protocols.Types.{ParsedPacket, to_u32}
use packet_dpi_engine.Flow.Entry.{FlowEntry, max_dpi_buffer_size}
use packet_dpi_engine.Flow.Classification.{dpi_engine, process_packet-encode_client_hello}
use packet_dpi_engine.Tests.DpiRuns.{hello, hello-IsHello}
use packet_dpi_engine.Flow.Address.{endpoint_lt, ip_lt}
use packet_dpi_engine.Flow.Key.{FlowKey, from_packet, from_ports, create}
use packet_dpi_engine.Flow.Table.{
  FlowTable, Inspector, default_timeouts, process_packet, find, find_flow, cleanup_expired,
}
use packet_dpi_engine.Flow.TableLaws.{IsTable}
use packet_dpi_engine.Flow.Processing.{has_flow, process_packet-IsTable}
use packet_dpi_engine.Flow.Expiry.{unless_outlived, cleanup_expired_exact}
use packet_dpi_engine.Flow.Verdicts.{AllDecided, process_packet-AllDecided}
use packet_dpi_engine.Rules.Engine.{new_engine, policy_of}
use packet_dpi_engine.Rules.SetLaws.{evaluate_l7-is_final}
use packet_dpi_engine.Tests.Packets.{syn_packet}

abbrev nothing_found : Inspector
nothing_found payload protocol src_port dst_port = record { matched = false; metadata = new_l7 }

abbrev empty_table : FlowTable
empty_table = record { table = []; timeout_config = default_timeouts; rule_engine = none }

abbrev one_flow : FlowTable
one_flow = (process_packet nothing_found empty_table syn_packet 5 60).0

process_packet-IsTable_example : IsTable one_flow.table
process_packet-IsTable_example = process_packet-IsTable nothing_found empty_table syn_packet 5 60 tt

cleanup_expired_exact_example :
    ((k : FlowKey)
      → find_flow (cleanup_expired one_flow 20000000).0 k
        ≡ unless_outlived one_flow.timeout_config 20000000 (find_flow one_flow k))
    × (length (cleanup_expired one_flow 20000000).0.table + (cleanup_expired one_flow 20000000).1
        ≡ length one_flow.table)
    × IsTable (cleanup_expired one_flow 20000000).0.table
cleanup_expired_exact_example =
    cleanup_expired_exact one_flow 20000000 process_packet-IsTable_example

abbrev policed_table : FlowTable
policed_table = record empty_table { rule_engine = some (policy_of new_engine) }

process_packet-AllDecided_example :
    AllDecided (process_packet nothing_found policed_table syn_packet 5 60).0.table
unfolding policy_of
process_packet-AllDecided_example =
    process_packet-AllDecided nothing_found policed_table (policy_of new_engine) syn_packet 5 60
      refl (λ key l7_meta. evaluate_l7-is_final new_engine.active_rules key l7_meta) tt

abbrev hello_packet : ParsedPacket
hello_packet = record syn_packet { l7_payload = encode_client_hello hello }

hello_packet-has_flow : has_flow hello_packet ≡ true
unfolding has_flow from_packet from_ports create endpoint_lt ip_lt to_u32
hello_packet-has_flow = refl

hello_short : length (encode_client_hello hello) ≤ max_dpi_buffer_size
unfolding encode_client_hello hello_body session_block cipher_block compression_block
    extension_block extensions_of encode_extensions encode_extension
hello_short = omega arith

process_packet-encode_client_hello_example :
    (e : FlowEntry) × ((process_packet dpi_engine policed_table hello_packet 5 60).1 ≡ some e)
    × (e.l7_meta.protocol ≡ tls)
    × (e.l7_meta.hostname ≡ hello.name)
    × (e.dpi_complete ≡ true)
    × (e.dpi_buffer ≡ [])
    × (e.policy_verdict ≡ (policy_of new_engine).evaluate_l7 (from_packet hello_packet).0 e.l7_meta)
unfolding find_flow find
process_packet-encode_client_hello_example =
    process_packet-encode_client_hello policed_table (policy_of new_engine) hello_packet 5 60 hello
      refl hello_packet-has_flow refl refl refl hello_short hello-IsHello
