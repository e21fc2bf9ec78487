-- ===== src/Catalog/Jobs.antt =====
-- `start_job` and `finish_job` of src/immutavault/state.py.
use immutavault.Catalog.Rows.{JobStatus, Job, Db}
use immutavault.Prelude.{ℕ, ◌+◌, String, Option, none, some, [], ◌∷◌, ◌++◌, eqb}
use immutavault.Prelude.Table.{update_where}

-- Readings of `utcnow` are the arguments `now`.
unfoldable pub start_job : String → String → String → String → Db → ℕ × Db
start_job now platform vm_id vm_name db =
    let id = db.sequences.jobs + 1 in
    (
      id,
      record db {
        jobs =
            db.jobs
            ++ record {
              id = id;
              started_at = now;
              finished_at = none;
              platform = platform;
              vm_id = vm_id;
              vm_name = vm_name;
              status = JobStatus.running;
              snapshot_id = none;
              error = none;
            }
              ∷ [];
        sequences = record (db.sequences) { jobs = id };
      },
    )

abbrev pub finished_job : String → JobStatus → Option String → Option String → Job → Job
finished_job now status snapshot_id error job = record job {
  finished_at = some now;
  status = status;
  snapshot_id = snapshot_id;
  error = error;
}

unfoldable pub finish_job : String → ℕ → JobStatus → Option String → Option String → Db → Db
finish_job now job_id status snapshot_id error db = record db {
  jobs =
      update_where (λ job. eqb job.id job_id) (finished_job now status snapshot_id error) db.jobs;
}
