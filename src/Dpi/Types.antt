-- ===== src/Dpi/Types.antt =====
-- include/dpi/dpi/l7_types.h. `confidence`, a float that nothing writes or reads, is left out.
use packet_dpi_engine.Base.{ℕ, Bool, true, false, List, []}

pub data AppProtocol : Type 0 where
  unknown tls http dns : AppProtocol

-- `==` of two protocols.
abbrev pub app_protocol_eq : AppProtocol → AppProtocol → Bool
app_protocol_eq unknown unknown = true
app_protocol_eq tls tls = true
app_protocol_eq http http = true
app_protocol_eq dns dns = true
app_protocol_eq a b = false

pub record TlsMetadata : Type 0 where
  pub legacy_version : ℕ
  pub client_version : ℕ
  pub sni : List ℕ
  pub has_sni : Bool

pub record HttpMetadata : Type 0 where
  pub method : List ℕ
  pub uri : List ℕ
  pub version : List ℕ
  pub host : List ℕ
  pub has_host : Bool

pub record DnsMetadata : Type 0 where
  pub transaction_id : ℕ
  pub flags : ℕ
  pub qtype : ℕ
  pub qclass : ℕ
  pub qname : List ℕ

pub record L7Metadata : Type 0 where
  pub protocol : AppProtocol
  pub hostname : List ℕ
  pub details : List ℕ
  pub is_classified : Bool
  pub tls : TlsMetadata
  pub http : HttpMetadata
  pub dns : DnsMetadata

abbrev pub new_tls : TlsMetadata
new_tls = record { legacy_version = 0; client_version = 0; sni = []; has_sni = false }

abbrev pub new_http : HttpMetadata
new_http = record { method = []; uri = []; version = []; host = []; has_host = false }

abbrev pub new_dns : DnsMetadata
new_dns = record { transaction_id = 0; flags = 0; qtype = 0; qclass = 0; qname = [] }

abbrev pub new_l7 : L7Metadata
new_l7 = record {
  protocol = unknown;
  hostname = [];
  details = [];
  is_classified = false;
  tls = new_tls;
  http = new_http;
  dns = new_dns;
}

pub record DpiResult : Type 0 where
  pub matched : Bool
  pub metadata : L7Metadata
