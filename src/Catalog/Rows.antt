-- ===== src/Catalog/Rows.antt =====
-- The tables of `SCHEMA` in src/immutavault/state.py: a record for a row of each table, and the
-- whole database. INTEGER columns that hold 0 or 1 are Booleans. TEXT columns that hold one of a
-- fixed set of words are enumerations. Timestamps are the ISO texts that `utcnow` writes.
use immutavault.Json.{JsonText}
use immutavault.Prelude.{ℕ, String, Bool, Option, List, []}

-- The words that the program writes into the `status` columns.
pub data JobStatus : Type 0 where
  running success failed : JobStatus

pub data CopyStatus : Type 0 where
  success failed : CopyStatus

pub data RequestStatus : Type 0 where
  pending_approval ready approved running success failed : RequestStatus

pub data RunStatus : Type 0 where
  running success failed : RunStatus

pub data Direction : Type 0 where
  failover failback : Direction

pub record Job : Type 0 where
  pub id : ℕ
  pub started_at : String
  pub finished_at : Option String
  pub platform : String
  pub vm_id : String
  pub vm_name : String
  pub status : JobStatus
  pub snapshot_id : Option String
  pub error : Option String

-- the eighteen columns that `upsert_recovery_point` writes
pub record PointColumns : Type 0 where
  pub snapshot_id : String
  pub created_at : String
  pub platform : String
  pub platform_type : String
  pub vm_id : String
  pub vm_name : String
  pub power_state : Option String
  pub source_path : String
  pub backup_bytes : ℕ
  pub data_added : ℕ
  pub file_count : ℕ
  pub manifest_sha256 : Option String
  pub immutable_until : String
  pub suspicious : Bool
  pub suspicious_reason : Option String
  pub verified : Bool
  pub verified_at : Option String
  pub metadata_json : JsonText

-- a row of `recovery_points`, with the two columns that `StateDB.__init__` adds
pub record Point : Type 0 where
  pub columns : PointColumns
  pub open columns use *
  pub expired : Bool
  pub expired_at : Option String

pub record Copy : Type 0 where
  pub snapshot_id : String
  pub target_name : String
  pub backend : String
  pub provider : Option String
  pub repository : String
  pub status : CopyStatus
  pub copied_at : Option String
  pub verified : Bool
  pub verified_at : Option String
  pub immutable_until : Option String
  pub object_lock_json : JsonText
  pub error : Option String

pub record Request : Type 0 where
  pub id : ℕ
  pub created_at : String
  pub requester : String
  pub snapshot_id : String
  pub source_platform : String
  pub vm_id : String
  pub vm_name : String
  pub target_platform : String
  pub target_name : String
  pub options_json : JsonText
  pub status : RequestStatus
  pub approved_by : Option String
  pub approved_at : Option String
  pub started_at : Option String
  pub finished_at : Option String
  pub result_json : Option JsonText
  pub error : Option String

pub record DrRun : Type 0 where
  pub id : ℕ
  pub started_at : String
  pub finished_at : Option String
  pub direction : Direction
  pub source_site : String
  pub target_site : String
  pub status : RunStatus
  pub details_json : JsonText
  pub error : Option String

pub record DrWorkload : Type 0 where
  pub id : ℕ
  pub run_id : ℕ
  pub workload_name : String
  pub snapshot_id : Option String
  pub source_platform : String
  pub target_platform : String
  pub target_name : Option String
  pub status : String
  pub result_json : JsonText
  pub error : Option String

pub record DrHealth : Type 0 where
  pub name : String
  pub checked_at : String
  pub healthy : Bool
  pub consecutive_failures : ℕ
  pub detail_json : JsonText

-- The two hash columns are NULL in rows older than the hash chain.
pub record AuditEvent : Type 0 where
  pub id : ℕ
  pub created_at : String
  pub actor : String
  pub action : String
  pub object_type : String
  pub object_id : String
  pub details_json : String
  pub prev_hash : Option String
  pub event_hash : Option String

-- `sqlite_sequence`: the greatest id that each AUTOINCREMENT table has ever given out
pub record Sequences : Type 0 where
  pub jobs : ℕ
  pub requests : ℕ
  pub runs : ℕ
  pub workloads : ℕ
  pub audit : ℕ

pub record Db : Type 0 where
  pub jobs : List Job
  pub points : List Point
  pub copies : List Copy
  pub requests : List Request
  pub runs : List DrRun
  pub workloads : List DrWorkload
  pub health : List DrHealth
  pub audit_events : List AuditEvent
  pub sequences : Sequences

-- a database that `SCHEMA` has just created
abbrev pub empty_db : Db
empty_db = record {
  jobs = [];
  points = [];
  copies = [];
  requests = [];
  runs = [];
  workloads = [];
  health = [];
  audit_events = [];
  sequences = record { jobs = 0; requests = 0; runs = 0; workloads = 0; audit = 0 };
}
