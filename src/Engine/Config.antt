-- ===== src/Engine/Config.antt =====
-- The settings that the modelled code reads: `PlatformConfig`, `ReplicaConfig`, `ProtectionConfig`
-- and `RetentionConfig` of src/immutavault/config.py, and the lookups `_platform` and `_replica`
-- of src/immutavault/engine.py.
use immutavault.Prelude.{
  ℕ, String, Bool, ◌&&◌, List, [], ◌∷◌, ◌==◌, if◌then◌else◌, Result, ok, err, value_error,
}
use Prim.Native.String.{◌++◌ as str_append}

pub record Platform : Type 0 where
  pub name : String
  pub type : String
  pub enabled : Bool
  pub include : List String
  pub exclude : List String

pub record Replica : Type 0 where
  pub name : String
  pub backend : String
  pub provider : String
  pub enabled : Bool
  pub object_lock_enabled : Bool
  pub r2_bucket_lock_enabled : Bool

pub record Protection : Type 0 where
  pub preserve_suspicious_points_days : ℕ
  pub verify_after_backup : Bool
  pub require_four_eyes_restore : Bool

pub record Config : Type 0 where
  pub repository_url : String
  pub keep_within_days : ℕ
  pub platforms : List Platform
  pub replicas : List Replica
  pub protection : Protection

find_platform : String → List Platform → Result Platform
find_platform name [] = err (value_error (str_append "unknown platform: " name))
find_platform name (p ∷ ps) = if p.name == name then ok p else find_platform name ps

-- `BackupEngine._platform`
unfoldable pub platform : Config → String → Result Platform
unfolding find_platform
platform cfg name = find_platform name cfg.platforms

find_replica : String → List Replica → Result Replica
find_replica name [] = err (value_error (str_append "unknown or disabled replica: " name))
find_replica name (r ∷ rs) = if r.name == name && r.enabled then ok r else find_replica name rs

-- `BackupEngine._replica`
unfoldable pub replica : Config → String → Result Replica
unfolding find_replica
replica cfg name = find_replica name cfg.replicas
