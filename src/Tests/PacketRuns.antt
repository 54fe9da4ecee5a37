-- ===== src/Tests/PacketRuns.antt =====
-- The theorems on `Protocols` at the frames of `Tests.Packets`.
use packet_dpi_engine.Base.{◌≢◌, refl, none, arith}
use packet_dpi_engine.Protocols.Parser.{parse_bytes}
use packet_dpi_engine.Protocols.Safety.{parse_bytes-ne-none}
use packet_dpi_engine.Protocols.Payload.{Layers, parse-Layers}
use packet_dpi_engine.Tests.Packets.{syn_frame, syn_packet, parse-syn_frame}

parse_bytes-ne-none_example : parse_bytes syn_frame 54 ≢ none
parse_bytes-ne-none_example = parse_bytes-ne-none syn_frame 54 (omega arith)

parse-Layers_example : Layers 55 syn_packet
parse-Layers_example = parse-Layers syn_frame syn_packet parse-syn_frame refl
