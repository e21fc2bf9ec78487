-- ===== src/Tests/Incremental.antt =====
-- Changed-block backups with a helper that answers well, and with one that proves nothing.
use immutavault.Prelude.Text.{lower, lstrip, rstrip}
use immutavault.Consistency.{normalize_provider_consistency}
use immutavault.Json.{Json, Fields, num, str, obj, end, field, dumped, get_field}
use immutavault.Incremental.{
  Outcome, done, transport_error, Probe, answers, HelperRun, Destination, Options, backup_result,
  capability_problem, raised, backup, gate,
}
use immutavault.Incremental.Checkpoints.{IsAccepted, backup_rejected, backup_done}
use immutavault.Prelude.{ℕ, String, ◌≡◌, refl, Bool, true, false, Option, none, some, [], ◌∷◌}

abbrev repr : Json → String
repr v = elim v [ str s ↦ s | other ↦ "" ]

abbrev to_int : Json → Outcome ℕ
to_int v = elim v [ num n ↦ done n | other ↦ done 0 ]

abbrev strict : Options
strict = record { application_consistency_strict = true; quiesce = true }

abbrev capable : Probe
capable = answers 1 ("cbt" ∷ "backup" ∷ "restore" ∷ [])

abbrev next_checkpoint : Json
next_checkpoint = obj (field "2000" (str "52 de 1") end)

-- the helper's answer with its attestation
abbrev answer_with : Json → HelperRun
answer_with attestation = record {
  returncode = 0;
  payload = obj (
      field "status" (str "success") (
        field "consistency" attestation (
          field "checkpoint" next_checkpoint
            (field "changed_bytes" (num 4096) (field "source_bytes_read" (num 8192) end)))));
  stderr = "";
  stdout = "";
}

abbrev destination : Destination
destination = record {
  checkpoint = some (dumped (obj (field "2000" (str "52 de 0") end)));
  consistency = none;
  transport = none;
  layout = true;
}

abbrev quiesced : Json
quiesced = obj (field "state" (str "guest-quiesced") end)

abbrev unproven : Option Fields → HelperRun × Bool
unproven previous = (answer_with (obj end), true)

abbrev proven : Option Fields → HelperRun × Bool
proven previous = (answer_with quiesced, true)

refused :
    (backup repr to_int strict capable unproven destination).0
    ≡ raised (
        transport_error
          "VDDK provider reported backup success without proving application/guest quiescence; strict application consistency fails closed"
          "application_consistency_unproven" false)
unfolding backup capability_problem gate get_field normalize_provider_consistency lower rstrip
    lstrip
refused = refl

backup_rejected_example :
    let d' = (backup repr to_int strict capable unproven destination).1 in
    (d'.checkpoint ≡ destination.checkpoint)
    × (d'.consistency ≡ destination.consistency)
    × (d'.transport ≡ destination.transport)
unfolding get_field
backup_rejected_example =
    backup_rejected repr to_int strict capable unproven destination
      (transport_error
        "VDDK provider reported backup success without proving application/guest quiescence; strict application consistency fails closed"
        "application_consistency_unproven" false)
      ((4096, refl), (8192, refl)) refused

accepted :
    (backup repr to_int strict capable proven destination).0
    ≡ done (backup_result repr to_int strict (answer_with quiesced) 4096 8192)
unfolding backup capability_problem gate get_field normalize_provider_consistency lower rstrip
    lstrip
accepted = refl

backup_done_example :
    (capability_problem capable ≡ none)
    × IsAccepted repr to_int strict
        (answer_with quiesced, true)
        (backup repr to_int strict capable proven destination).1
backup_done_example =
    backup_done repr to_int strict capable proven destination
      (backup_result repr to_int strict (answer_with quiesced) 4096 8192) accepted
