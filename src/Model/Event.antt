-- ===== src/Model/Event.antt =====
-- model/apmevent.go, service.go, cloud.go, host.go, faas.go, transaction.go, span.go, metricset.go:
-- the fields that the modelled code reads or writes. `F` is the type of float64 values.
use apm_server.Prelude.{ℕ, String, Option, none, Bool, List, ◌-◌, ◌%◌, ℤ, pos}

-- `Processor`: the values of the source that are compared against, and any other.
pub data Processor : Type 0 where
  no_processor transaction_processor span_processor metricset_processor error_processor : Processor
  other_processor : String → Processor

pub record NameVersion : Type 0 where
  pub name : String
  pub version : String

pub record Service : Type 0 where
  pub name : String
  pub version : String
  pub environment : String
  pub node_name : String
  pub runtime : NameVersion
  pub language : NameVersion

pub record Cloud : Type 0 where
  pub account_id : String
  pub account_name : String
  pub availability_zone : String
  pub machine_type : String
  pub project_id : String
  pub project_name : String
  pub provider : String
  pub region : String
  pub service_name : String

pub record Host : Type 0 where
  pub hostname : String
  pub os_platform : String

-- `Coldstart` is a `*bool`: nil, or the address at which the value is stored.
pub record Faas : Type 0 where
  pub id : String
  pub coldstart : Option ℕ
  pub trigger_type : String
  pub name : String
  pub version : String

pub record Histogram (F : Type 0) : Type 0 where
  pub values : List F
  pub counts : List ℕ

-- `AggregatedDuration`: the sum is a duration in nanoseconds.
pub record AggregatedDuration : Type 0 where
  pub count : ℤ
  pub sum : ℤ

pub record DroppedSpanStats : Type 0 where
  pub destination_service_resource : String
  pub outcome : String
  pub duration : AggregatedDuration

pub record Transaction (F : Type 0) : Type 0 where
  pub id : String
  pub name : String
  pub type : String
  pub result : String
  pub sampled : Bool
  pub duration_histogram : Histogram F
  pub dropped_spans_stats : List DroppedSpanStats
  pub representative_count : F
  pub root : Bool

pub record DestinationService : Type 0 where
  pub resource : String
  pub response_time : AggregatedDuration

-- `Composite`: the sum is in milliseconds.
pub record Composite (F : Type 0) : Type 0 where
  pub count : ℤ
  pub sum : F

pub record Span (F : Type 0) : Type 0 where
  pub id : String
  pub destination_service : Option DestinationService
  pub composite : Option (Composite F)
  pub representative_count : F

pub record Metricset : Type 0 where
  pub name : String
  pub doc_count : ℕ
  pub timeseries_instance_id : String

-- Times are nanoseconds since the zero time, durations nanoseconds. `others` stands for the fields
-- that no modelled code looks at.
pub record ApmEvent (F : Type 0) : Type 0 where
  pub timestamp : ℕ
  pub processor : Processor
  pub agent_name : String
  pub container_id : String
  pub kubernetes_pod_name : String
  pub service : Service
  pub cloud : Cloud
  pub host : Host
  pub outcome : String
  pub duration : ℤ
  pub trace_id : String
  pub parent_id : String
  pub faas : Faas
  pub transaction : Option (Transaction F)
  pub span : Option (Span F)
  pub metricset : Option Metricset
  pub others : String

abbrev pub zero_name_version : NameVersion
zero_name_version = record { name = ""; version = "" }

abbrev pub zero_service : Service
zero_service = record {
  name = "";
  version = "";
  environment = "";
  node_name = "";
  runtime = zero_name_version;
  language = zero_name_version;
}

abbrev pub zero_cloud : Cloud
zero_cloud = record {
  account_id = "";
  account_name = "";
  availability_zone = "";
  machine_type = "";
  project_id = "";
  project_name = "";
  provider = "";
  region = "";
  service_name = "";
}

-- The zero value of `APMEvent`.
abbrev pub zero_event : (F : Type 0) → ApmEvent F
zero_event F = record {
  timestamp = 0;
  processor = no_processor;
  agent_name = "";
  container_id = "";
  kubernetes_pod_name = "";
  service = zero_service;
  cloud = zero_cloud;
  host = record { hostname = ""; os_platform = "" };
  outcome = "";
  duration = pos 0;
  trace_id = "";
  parent_id = "";
  faas = record { id = ""; coldstart = none; trigger_type = ""; name = ""; version = "" };
  transaction = none;
  span = none;
  metricset = none;
  others = "";
}

-- `Time.Truncate`
unfoldable pub truncate : ℕ → ℕ → ℕ
truncate timestamp interval = timestamp - timestamp % interval
