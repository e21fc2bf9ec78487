-- ===== src/Incremental/Checkpoints.antt =====
-- A backup that is turned down leaves the checkpoint of the last good one.
use immutavault.Json.{Json, Fields, dumped, get_field}
use immutavault.Consistency.{application_consistent}
use immutavault.Incremental.{
  Outcome, done, raised, BackupError, Probe, HelperRun, fields, Destination, Options,
  IncrementalResult, capability_problem, succeeded, is_checkpoint, normalized_consistency, gate,
  int_or_zero, read_checkpoint, write_transport, passed_on, after_probe, backup,
}
use immutavault.Prelude.{
  ℕ, String, ◌≡◌, ◌≢◌, refl, Bool, true, not, ◌&&◌, ◌||◌, Option, none, some, if◌then◌else◌, arith,
}

-- Four gates in a row complain of nothing when each is passed.
gates-none {ℓ} :
    {E : Type ℓ} (a strict quiesce proven c f : Bool) (e₁ e₂ e₃ e₄ : E)
    → (if not a
        then some e₁
        else if strict && quiesce && not proven
        then some e₂
        else if not c
        then some e₃
        else if not f
        then some e₄
        else none)
      ≡ none
    → (a ≡ true) × (not (strict && quiesce) || proven ≡ true) × (c ≡ true) × (f ≡ true)
gates-none a strict quiesce proven c f e₁ e₂ e₃ e₄ h = ground arith

module _ (repr : Json → String) (to_int : Json → Outcome ℕ) where
  -- a number that the helper reports can be read
  abbrev pub IsReadable : String → HelperRun → Type 0
  IsReadable name r = (n : ℕ) × (int_or_zero repr to_int (get_field name (fields r)) ≡ done n)

  -- the answer has passed every gate, and its checkpoint is the destination's
  abbrev pub IsAccepted : Options → HelperRun × Bool → Destination → Type 0
  IsAccepted options (r, layout) d =
      (succeeded repr to_int r ≡ true)
      × ((not (options.application_consistency_strict && options.quiesce)
            || application_consistent (normalized_consistency repr to_int options r))
          ≡ true)
      × (layout ≡ true)
      × (is_checkpoint repr to_int (get_field "checkpoint" (fields r)) ≡ true)
      × (d.checkpoint ≡ some (dumped (get_field "checkpoint" (fields r))))

  -- The gates that an answer without a complaint has passed.
  gate-none :
      (options : Options) (r : HelperRun) (layout : Bool)
      → gate repr to_int options r layout ≡ none
      → (succeeded repr to_int r ≡ true)
        × ((not (options.application_consistency_strict && options.quiesce)
              || application_consistent (normalized_consistency repr to_int options r))
            ≡ true)
        × (layout ≡ true)
        × (is_checkpoint repr to_int (get_field "checkpoint" (fields r)) ≡ true)
  unfolding gate
  gate-none options r layout h =
      gates-none (succeeded repr to_int r) options.application_consistency_strict options.quiesce
        (application_consistent (normalized_consistency repr to_int options r)) layout
        (is_checkpoint repr to_int (get_field "checkpoint" (fields r))) _ _ _ _ h

  -- The last write is made where the numbers can be read.
  write_transport_readable :
      (options : Options) (r : HelperRun) (changed source : Outcome ℕ) (d : Destination)
      (e : BackupError) (n m : ℕ)
      → changed ≡ done n
      → source ≡ done m
      → (write_transport repr to_int options r changed source d).0 ≢ raised e
  write_transport_readable options r (raised e') source d e n m p q h = cc
  write_transport_readable options r (done n') (raised e') d e n m p q h = cc
  write_transport_readable options r (done n') (done m') d e n m p q h = cc

  write_transport_done :
      (options : Options) (r : HelperRun) (changed source : Outcome ℕ) (d : Destination)
      → (write_transport repr to_int options r changed source d).1.checkpoint ≡ d.checkpoint
  write_transport_done options r (raised e) source d = refl
  write_transport_done options r (done n) (raised e) d = refl
  write_transport_done options r (done n) (done m) d = refl

  abbrev pub Unmoved : Destination → Destination → Type 0
  Unmoved d d' =
      (d'.checkpoint ≡ d.checkpoint)
      × (d'.consistency ≡ d.consistency)
      × (d'.transport ≡ d.transport)

  passed_on_rejected :
      (g : Option BackupError) (options : Options) (r : HelperRun) (d : Destination)
      (e : BackupError)
      → IsReadable "changed_bytes" r × IsReadable "source_bytes_read" r
      → (passed_on repr to_int g options r d).0 ≡ raised e
      → Unmoved d (passed_on repr to_int g options r d).1
  passed_on_rejected (some e') options r d e readable h = (refl, refl, refl)
  passed_on_rejected none options r d e readable h =
      absurd (write_transport_readable options r _ _ _ e _ _ readable.0.1 readable.1.1 h)

  -- A changed-block backup that raises an error leaves the checkpoint, the attestation and the
  -- transport file of the destination as they were, provided that the two numbers in the answer of
  -- the helper can be read.
  pub backup_rejected :
      (options : Options) (probe : Probe) (run : Option Fields → HelperRun × Bool) (d : Destination)
      (e : BackupError)
      → (let r = (run (read_checkpoint d.checkpoint)).0 in
          IsReadable "changed_bytes" r × IsReadable "source_bytes_read" r)
      → (backup repr to_int options probe run d).0 ≡ raised e
      → let d' = (backup repr to_int options probe run d).1 in
        (d'.checkpoint ≡ d.checkpoint)
        × (d'.consistency ≡ d.consistency)
        × (d'.transport ≡ d.transport)
  unfolding backup
  backup_rejected options probe run d e readable h =
      after_probe_rejected (capability_problem probe) h
    where
      after_probe_rejected :
          (problem : Option String)
          → (after_probe repr to_int problem options run d).0 ≡ raised e
          → Unmoved d (after_probe repr to_int problem options run d).1
      after_probe_rejected (some reason) h' = (refl, refl, refl)
      after_probe_rejected none h' =
          passed_on_rejected
            (gate repr to_int options (run (read_checkpoint d.checkpoint)).0
              (run (read_checkpoint d.checkpoint)).1)
            options _ _ e readable h'

  passed_on_done :
      (g : Option BackupError) (options : Options) (r : HelperRun) (d : Destination)
      (result : IncrementalResult)
      → (passed_on repr to_int g options r d).0 ≡ done result
      → (g ≡ none)
        × ((passed_on repr to_int g options r d).1.checkpoint
            ≡ some (dumped (get_field "checkpoint" (fields r))))
  passed_on_done (some e) options r d result h = cc
  passed_on_done none options r d result h = (refl, write_transport_done options r _ _ _)

  -- A changed-block backup that returns a result has a capable helper, whose run has succeeded, has
  -- proven the application consistency where the strict policy asks for it, left a layout and named
  -- a checkpoint, and this checkpoint is the one stored for the next run.
  pub backup_done :
      (options : Options) (probe : Probe) (run : Option Fields → HelperRun × Bool) (d : Destination)
      (result : IncrementalResult)
      → (backup repr to_int options probe run d).0 ≡ done result
      → (capability_problem probe ≡ none)
        × IsAccepted options
            (run (read_checkpoint d.checkpoint))
            (backup repr to_int options probe run d).1
  unfolding backup
  backup_done options probe run d result h = after_probe_done (capability_problem probe) h
    where
      after_probe_done :
          (problem : Option String)
          → (after_probe repr to_int problem options run d).0 ≡ done result
          → (problem ≡ none)
            × IsAccepted options
                (run (read_checkpoint d.checkpoint))
                (after_probe repr to_int problem options run d).1
      after_probe_done (some reason) h' = cc
      after_probe_done none h' =
          let (r, layout) = run (read_checkpoint d.checkpoint) in
          let p =
            passed_on_done (gate repr to_int options r layout) options r
              (record d { layout = layout }) result h' in
          let g = gate-none options r layout p.0 in (refl, (g.0, g.1, g.2, g.3, p.1))
