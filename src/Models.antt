-- ===== src/Models.antt =====
-- hiveguard-core/src/models.rs: the ban record and what it holds, events and signals. A
-- `DateTime<Utc>` is a number of milliseconds since the epoch.
use Prim.Native.String.{String}
use hiveguard.Prelude.{ℕ, Bool, List, Option}
use hiveguard.Prelude.Map.{HashMap}
use hiveguard.Net.{IpAddr, IpNet}
use hiveguard.Crypto.{Bytes}

pub data BanSource : Type 0 where
  local_detector : String → BanSource
  cluster_peer : String → BanSource
  manual_admin : BanSource

pub record GeoIpInfo : Type 0 where
  pub country_iso : Option String
  pub asn : Option ℕ
  pub asn_org : Option String
  pub is_datacenter : Bool

pub record BanRecord : Type 0 where
  pub subject : IpNet
  pub created_at : ℕ
  pub expires_at : Option ℕ
  pub severity : ℕ
  pub reason : String
  pub evidence_hash : List ℕ
  pub source : BanSource
  pub geo_info : Option GeoIpInfo

pub data EventType : Type 0 where
  auth_failure : EventType
  auth_success : EventType
  http_request : EventType
  http4xx : EventType
  http5xx : EventType
  smtp_auth_failure : EventType
  port_access : EventType
  connection_event : EventType
  custom : String → EventType

pub record NormalizedEvent : Type 0 where
  pub timestamp : ℕ
  pub source_ip : IpAddr
  pub event_type : EventType
  pub source_name : String
  pub raw_line : String
  pub metadata : HashMap String String

-- A duration is a number of milliseconds.
pub data Action : Type 0 where
  ban : ℕ → Action
  observe : Action
  escalate : Action

-- The confidence is in hundredths.
pub record DetectionSignal : Type 0 where
  pub source_ip : IpNet
  pub severity : ℕ
  pub confidence : ℕ
  pub reason : String
  pub evidence_hash : Bytes
  pub suggested_action : Action
  pub detector_name : String
  pub timestamp : ℕ
