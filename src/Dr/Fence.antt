-- ===== src/Dr/Fence.antt =====
-- The fence commands: `_run_fence_command` of src/immutavault/dr.py.
use immutavault.Dr.Config.{DrOutside}
use immutavault.Dr.Action.{fence_ran, fence_verified, Action, pure, call}
use immutavault.Prelude.{
  String, Bool, true, false, Option, none, some, ◌==◌, if◌then◌else◌, Result, ok, err,
  runtime_error,
}
use Prim.Native.String.{◌++◌ as str_append}

abbrev pub succeeded : Result (Unit {0}) → Bool
succeeded (ok _) = true
succeeded (err _) = false

-- `_run_fence_command`: a name that is missing or empty, then the command's own answer
abbrev pub fence_command : DrOutside → Option String → String → Result (Unit {0})
fence_command out none label =
    err (runtime_error (str_append label " command environment variable is not configured"))
fence_command out (some env_name) label =
    if env_name == ""
    then err (runtime_error (str_append label " command environment variable is not configured"))
    else out.run_command env_name

abbrev pub run_fence : DrOutside → Option String → Action (Unit {0})
run_fence out env_name =
    let answered = fence_command out env_name "primary fence" in
    call (fence_ran (succeeded answered)) answered

-- `if fence.verify_command_env:`, which an empty name does not pass
abbrev pub run_fence_verification : DrOutside → Option String → Action (Unit {0})
run_fence_verification out none = pure tt
run_fence_verification out (some env_name) =
    let answered = fence_command out (some env_name) "primary fence verification" in
    if env_name == "" then pure tt else call (fence_verified (succeeded answered)) answered
