-- ===== src/Importer/Nodes.antt =====
-- internal/importer/types.go: a managed node, and the places that it was imported from.
use easy_proxies.Prelude.{ℕ, Bool, List, [], String, ℤ}

pub data ManagedNodeState : Type 0 where
  parsed testing passed failed blocked in_pool excluded : ManagedNodeState

pub record NodeSourceRef : Type 0 where
  pub tag_prefix : String
  pub import_id : String
  pub mode : String
  pub source : String
  pub format : String
  pub chain_profile_id : String
  pub fetch_policy : String

pub record ManagedNode : Type 0 where
  pub id : String
  pub uri : String
  pub chain_profile_id : String
  pub original_name : String
  pub name : String
  pub tag_prefix : String
  pub import_id : String
  pub import_mode : String
  pub import_source : String
  pub import_format : String
  pub source_refs : List NodeSourceRef
  pub country_code : String
  pub country_name : String
  pub latency_ms : ℤ
  pub port : ℕ
  pub state : ManagedNodeState
  pub enabled : Bool
  pub in_pool : Bool
  pub order : ℤ
  pub consecutive_failures : ℤ
  pub last_error : String
  pub last_test_at : ℤ
  pub created_at : ℤ
  pub updated_at : ℤ

pub data ImportStatus : Type 0 where
  parsed running completed failed canceled : ImportStatus

-- Of an import job, what the store and the retention of jobs read and write.
pub record ImportJob : Type 0 where
  pub id : String
  pub status : ImportStatus
  pub probe_pending : ℤ
  pub error : String
  pub node_ids : List String
  pub created_at : ℤ
  pub updated_at : ℤ

unfoldable pub compact_persisted_job : ImportJob → ImportJob
compact_persisted_job job = elim job.status [
  | ImportStatus.completed ↦ record job { node_ids = [] }
  | ImportStatus.failed ↦ record job { node_ids = [] }
  | ImportStatus.canceled ↦ record job { node_ids = [] }
  | _ ↦ job
]
