-- ===== src/Consistency.antt =====
-- Attestations of application consistency: src/immutavault/consistency.py.
use immutavault.Json.{
  Json, Fields, JsonText, null, bool, str, obj, end, field, dumped, get_field, text_with, text_or,
  set_default, loads_or_empty,
}
use immutavault.Prelude.{
  String, ◌≡◌, refl, Bool, true, false, ◌||◌, Option, none, some, ◌==◌, if◌then◌else◌,
}
use immutavault.Prelude.Text.{strip, lower}

pub record ApplicationConsistency : Type 0 where
  pub state : String
  pub method : String
  pub requested : Bool
  pub strict : Bool
  pub provider_attested : Bool
  pub detail : Option String

-- `in APPLICATION_STATES`
abbrev pub is_application_state : String → Bool
is_application_state s = s == "application-consistent" || s == "guest-quiesced"

abbrev pub application_consistent : ApplicationConsistency → Bool
application_consistent c = is_application_state c.state

abbrev pub detail_json : Option String → Json
detail_json none = null
detail_json (some s) = str s

unfoldable pub as_dict : ApplicationConsistency → Fields
as_dict c = field "state" (str c.state) (
    field "method" (str c.method) (
      field "requested" (bool c.requested) (
        field "strict" (bool c.strict) (
          field "provider_attested" (bool c.provider_attested) (
            field "detail" (detail_json c.detail)
              (field "application_consistent" (bool (application_consistent c)) end))))))

-- the consistency file: it is there or not, and holds the text of a value
abbrev pub ConsistencyFile : Type 0
ConsistencyFile = Option JsonText

-- `write_consistency`, which replaces the file at once
abbrev pub write_consistency : Fields → ConsistencyFile
write_consistency payload = some (dumped (obj payload))

unfoldable pub read_consistency : ConsistencyFile → Option Fields
read_consistency (some (dumped (obj fs))) = some fs
read_consistency _ = none

abbrev pub unattested : Bool → Bool → ApplicationConsistency
unattested requested strict = record {
  state = "unattested";
  method = "provider";
  requested = requested;
  strict = strict;
  provider_attested = false;
  detail = some "provider did not return a consistency attestation";
}

-- `str(value.get("detail")) if value.get("detail") not in (None, "") else None`
abbrev pub detail_of : (Json → String) → Json → Option String
detail_of repr null = none
detail_of repr (str s) = if s == "" then none else some s
detail_of repr v = some (repr v)

unfoldable pub normalize_provider_consistency :
    (Json → String) → Json → Bool → Bool → ApplicationConsistency
normalize_provider_consistency repr (obj value) requested strict = record {
  state = lower (strip (text_or repr "state" "unattested" value));
  method = strip (text_or repr "method" "provider" value);
  requested = requested;
  strict = strict;
  provider_attested = true;
  detail = detail_of repr (get_field "detail" value);
}
normalize_provider_consistency repr other requested strict = unattested requested strict

abbrev pub legacy_consistency : Fields
legacy_consistency = field "state" (str "unknown") (
    field "method" (str "legacy-point") (
      field "requested" (bool false) (
        field "strict" (bool false) (
          field "provider_attested" (bool false) (
            field "application_consistent" (bool false)
              (field "detail" (str "recovery point predates v0.8 consistency metadata") end))))))

abbrev pub with_defaults : (Json → String) → Fields → Fields
with_defaults repr value =
    let stated =
      set_default "method" (str "recorded") (set_default "state" (str "unknown") value) in
    set_default "application_consistent"
      (bool (is_application_state (lower (text_with repr (get_field "state" stated))))) stated

abbrev pub recorded_consistency : Json → Json
recorded_consistency (obj metadata) = get_field "application_consistency" metadata
recorded_consistency other = null

-- `point_consistency` of a point's `metadata_json`
unfoldable pub point_consistency : (Json → String) → JsonText → Fields
point_consistency repr metadata_json = elim (recorded_consistency (loads_or_empty metadata_json)) [
  | obj value ↦ with_defaults repr value
  | other ↦ legacy_consistency
]

-- What is written is what is read.
read-write_consistency :
    (c : ApplicationConsistency)
    → read_consistency (write_consistency (as_dict c)) ≡ some (as_dict c)
unfolding read_consistency
read-write_consistency c = refl
