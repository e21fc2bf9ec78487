-- ===== src/Incremental.antt =====
-- `VDDKProvider` of src/immutavault/incremental.py: changed-block backups by an external helper.
pub mod Checkpoints
use immutavault.Json.{
  Json, Fields, JsonText, null, bool, num, str, arr, obj, end, field, dumped, get_field, is_truthy,
  text_with, text_or, set_default,
}
use immutavault.Consistency.{
  ApplicationConsistency, ConsistencyFile, application_consistent, as_dict, write_consistency,
  normalize_provider_consistency,
}
use immutavault.Prelude.{
  ℕ, String, Bool, true, false, not, ◌&&◌, ◌||◌, Option, none, some, List, [], ◌∷◌, any, eqb, ◌==◌,
  if◌then◌else◌, ◌≡◌,
}
use Prim.Native.String.{◌++◌ as str_append}

-- `IncrementalTransportError`, and the other exceptions of a backup by their text
pub data BackupError : Type 0 where
  transport_error : String → String → Bool → BackupError
  runtime_error : String → BackupError
  attribute_error : String → BackupError

pub data Outcome {ℓ} (A : Type ℓ) : Type ℓ where
  done : A → Outcome A
  raised : BackupError → Outcome A

-- What the helper answers to `capabilities`: none where no helper is installed, the error text of a
-- probe that fails, nothing that parses, or the protocol and the features.
pub data Probe : Type 0 where
  no_helper : Probe
  probe_failed : String → Probe
  unreadable : Probe
  answers : ℕ → List String → Probe

abbrev pub lists_feature : List String → String → Bool
lists_feature features name = any (λ f. f == name) features

-- `available` of `capabilities`, or its reason
unfoldable pub capability_problem : Probe → Option String
capability_problem no_helper = some "helper_missing"
capability_problem (probe_failed error) = some "capability_probe_failed"
capability_problem unreadable = some "invalid_capability_json"
capability_problem (answers protocol features) =
    if eqb protocol 1
      && lists_feature features "cbt"
      && lists_feature features "backup"
      && lists_feature features "restore"
    then none
    else some "missing_required_capability"

-- How a run of the helper ends: its code, its JSON answer (an empty object where it does not parse),
-- and what it prints, stripped.
pub record HelperRun : Type 0 where
  pub returncode : ℕ
  pub payload : Json
  pub stderr : String
  pub stdout : String

abbrev pub is_object : Json → Bool
is_object (obj fs) = true
is_object _ = false

-- The fields that `payload.get` reads. An answer that is no object has none, so that it is no
-- success, and `helper_error` raises what `payload.get` raises on it.
abbrev pub fields : HelperRun → Fields
fields r = elim r.payload [ obj fs ↦ fs | other ↦ end ]

abbrev pub no_object : BackupError
no_object = attribute_error "object has no attribute 'get'"

-- The files of the destination that outlast a backup, and whether the helper has left a layout.
pub record Destination : Type 0 where
  pub checkpoint : Option JsonText
  pub consistency : ConsistencyFile
  pub transport : Option JsonText
  pub layout : Bool

pub record Options : Type 0 where
  pub application_consistency_strict : Bool
  pub quiesce : Bool

-- `_read_checkpoint`
abbrev pub read_checkpoint : Option JsonText → Option Fields
read_checkpoint (some (dumped (obj fs))) = some fs
read_checkpoint _ = none

pub record IncrementalResult : Type 0 where
  pub mode : String
  pub changed_bytes : ℕ
  pub source_bytes_read : ℕ
  pub checkpoint : Json
  pub detail : Fields

-- `repr` gives the text of a JSON value, and `to_int` is `int`, which may raise.
module _ (repr : Json → String) (to_int : Json → Outcome ℕ) where
  abbrev pub succeeded : HelperRun → Bool
  succeeded r = eqb r.returncode 0 && is_success (get_field "status" (fields r))
    where
      is_success : Json → Bool
      is_success (str s) = s == "success"
      is_success _ = false

  -- `a or b or …`, of texts
  abbrev pub first_text : List String → String
  first_text [] = ""
  first_text (s ∷ ss) = let rest = first_text ss in if s == "" then rest else s

  abbrev pub helper_error : HelperRun → BackupError
  helper_error r =
      let reason = text_or repr "reason" "provider_error" (fields r) in
      if not (is_object r.payload)
      then no_object
      else transport_error
          (text_or repr "error" (first_text (r.stderr ∷ r.stdout ∷ reason ∷ [])) (fields r)) reason
          (is_truthy (get_field "fallback_safe" (fields r)))

  -- `isinstance(checkpoint, dict) and checkpoint`
  abbrev pub is_checkpoint : Json → Bool
  is_checkpoint (obj (field k v fs)) = true
  is_checkpoint _ = false

  abbrev pub normalized_consistency : Options → HelperRun → ApplicationConsistency
  normalized_consistency options r =
      normalize_provider_consistency repr (get_field "consistency" (fields r)) options.quiesce
        options.application_consistency_strict

  -- the gates between the helper's answer and the first write
  unfoldable pub gate : Options → HelperRun → Bool → Option BackupError
  gate options r layout =
      if not (succeeded r)
      then some (helper_error r)
      else if options.application_consistency_strict
          && options.quiesce
          && not (application_consistent (normalized_consistency options r))
      then some (
          transport_error
            "VDDK provider reported backup success without proving application/guest quiescence; strict application consistency fails closed"
            "application_consistency_unproven" false)
      else if not layout
      then some (
          transport_error
            "VDDK provider reported success but did not create immutavault-vddk-layout.json"
            "missing_layout" false)
      else if not (is_checkpoint (get_field "checkpoint" (fields r)))
      then some (
          transport_error "VDDK provider did not return a valid per-disk CBT checkpoint"
            "missing_checkpoint" false)
      else none

  -- `int(payload.get(…) or 0)`
  abbrev pub int_or_zero : Json → Outcome ℕ
  int_or_zero v = if is_truthy v then to_int v else done 0

  abbrev pub transport_detail : Options → HelperRun → ℕ → ℕ → Fields
  transport_detail options r changed_bytes source_bytes_read = field "version" (num 1) (
      field "provider" (str "vddk-cbt") (
        field "mode" (str (text_or repr "mode" "incremental" (fields r))) (
          field "changed_bytes" (num changed_bytes) (
            field "source_bytes_read" (num source_bytes_read) (
              field "transport" (get_field "transport" (fields r)) (
                field "checkpoint" (get_field "checkpoint" (fields r))
                  (field "consistency" (obj (as_dict (normalized_consistency options r))) end)))))))

  abbrev pub backup_result : Options → HelperRun → ℕ → ℕ → IncrementalResult
  backup_result options r changed_bytes source_bytes_read = record {
    mode = text_or repr "mode" "incremental" (fields r);
    changed_bytes = changed_bytes;
    source_bytes_read = source_bytes_read;
    checkpoint = get_field "checkpoint" (fields r);
    detail = transport_detail options r changed_bytes source_bytes_read;
  }

  -- the last write, for which the two numbers have to be read
  abbrev pub write_transport :
      Options
      → HelperRun
      → Outcome ℕ
      → Outcome ℕ
      → Destination
      → Outcome IncrementalResult × Destination
  write_transport options r (raised e) source d = (raised e, d)
  write_transport options r (done changed) (raised e) d = (raised e, d)
  write_transport options r (done changed) (done source) d = (
    done (backup_result options r changed source),
    record d { transport = some (dumped (obj (transport_detail options r changed source))) },
  )

  -- the writes: the checkpoint first, then the attestation, then the transport's own file
  abbrev pub advance : Options → HelperRun → Destination → Outcome IncrementalResult × Destination
  advance options r d =
      write_transport options r (int_or_zero (get_field "changed_bytes" (fields r)))
        (int_or_zero (get_field "source_bytes_read" (fields r)))
        (record d {
          checkpoint = some (dumped (get_field "checkpoint" (fields r)));
          consistency = write_consistency (as_dict (normalized_consistency options r));
        })

  -- after the gates
  abbrev pub passed_on :
      Option BackupError
      → Options
      → HelperRun
      → Destination
      → Outcome IncrementalResult × Destination
  passed_on (some e) options r d = (raised e, d)
  passed_on none options r d = advance options r d

  abbrev pub after_run :
      Options → HelperRun × Bool → Destination → Outcome IncrementalResult × Destination
  after_run options (r, layout) d =
      passed_on (gate options r layout) options r (record d { layout = layout })

  abbrev pub after_probe :
      Option String
      → Options
      → (Option Fields → HelperRun × Bool)
      → Destination
      → Outcome IncrementalResult × Destination
  after_probe (some reason) options run d = (
    raised (transport_error (str_append "VDDK/CBT provider unavailable: " reason) reason false),
    d,
  )
  after_probe none options run d = after_run options (run (read_checkpoint d.checkpoint)) d

  -- `run` is the helper's answer to the request, which carries the checkpoint that it can read, and
  -- whether it leaves a layout.
  unfoldable pub backup :
      Options
      → Probe
      → (Option Fields → HelperRun × Bool)
      → Destination
      → Outcome IncrementalResult × Destination
  backup options probe run d = after_probe (capability_problem probe) options run d

  -- `restore`: the helper's result with its defaults
  unfoldable pub restore : Probe → Bool → String → HelperRun → Outcome Fields
  restore probe layout target_name r = elim (capability_problem probe) [
    | some reason ↦ raised (
        runtime_error
          "this recovery point uses VDDK/CBT block layout, but the authorized VDDK provider is unavailable")
    | none ↦
        if not layout
        then raised (runtime_error "incremental recovery layout is missing")
        else if not (is_object r.payload)
        then raised no_object
        else if not (succeeded r)
        then raised (
            runtime_error (
              text_or repr "error" (first_text (r.stderr ∷ r.stdout ∷ "VDDK restore failed" ∷ []))
                (fields r)))
        else done (restored_fields target_name (get_field "result" (fields r)))
  ]
    where
      restored_fields : String → Json → Fields
      restored_fields name (obj fs) =
          set_default "transport" (str "vddk-cbt") (set_default "name" (str name) fs)
      restored_fields name other = field "name" (str name) (field "transport" (str "vddk-cbt") end)
