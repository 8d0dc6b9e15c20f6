-- ===== src/Store/Completion/Stages.antt =====
-- transaction_executor.rs: `apply_stage_mutation` and `insert_artifact_refs`.
use agent_loom.Base.{
  ℕ, Bool, true, false, ◌&&◌, ◌||◌, not, Option, none, some, List, [], ◌∷◌, ◌++◌, ◌==◌,
  if◌then◌else◌, exists_where, update_where, count_where,
}
use agent_loom.Domain.Status.{StageStatus, is_terminal_stage}
use agent_loom.Store.Result.{StoreErrorCode, StoreResult, ok, ◌>>=◌, ◌>>◌, reject_if, to_i64}
use agent_loom.Store.Rows.{StageRow, ArtifactRow}
use agent_loom.Store.Database.{Database}
use agent_loom.Store.Claim.{sql_add}
use agent_loom.Store.Completion.{StageMutation, NewArtifactRef}
use agent_loom.Store.Completion.Inserts.{stage_is_known}

-- The transitions that the UPDATE lists, from the row's status to the new one.
abbrev pub may_become : StageStatus → StageStatus → Bool
may_become StageStatus.planned StageStatus.active = true
may_become StageStatus.planned StageStatus.waiting_approval = true
may_become StageStatus.planned StageStatus.cancelled = true
may_become StageStatus.active StageStatus.waiting_approval = true
may_become StageStatus.active StageStatus.rework_required = true
may_become StageStatus.active StageStatus.succeeded = true
may_become StageStatus.active StageStatus.failed = true
may_become StageStatus.active StageStatus.skipped = true
may_become StageStatus.active StageStatus.cancelled = true
may_become StageStatus.waiting_approval StageStatus.active = true
may_become StageStatus.waiting_approval StageStatus.succeeded = true
may_become StageStatus.waiting_approval StageStatus.rework_required = true
may_become StageStatus.waiting_approval StageStatus.failed = true
may_become StageStatus.waiting_approval StageStatus.cancelled = true
may_become StageStatus.rework_required StageStatus.active = true
may_become StageStatus.rework_required StageStatus.failed = true
may_become StageStatus.rework_required StageStatus.cancelled = true
may_become _ _ = false

-- WHERE of the stage's UPDATE.
abbrev pub is_mutated : ℕ → ℕ → StageMutation → ℕ → StageRow → Bool
is_mutated tenant_id run_id mutation expected_version s =
    s.tenant_id == tenant_id
    && (s.run_id == run_id
        && (s.stage_execution_id == mutation.stage_execution_id
            && (s.version == expected_version && may_become s.status mutation.target_status)))

-- SET of the stage's UPDATE.
abbrev pub mutated_row : StageMutation → ℕ → ℕ → StageRow → StageRow
mutated_row mutation version now s = record s {
  status = mutation.target_status;
  version = version;
  completed_at = if is_terminal_stage mutation.target_status then some now else none;
  updated_at = now;
}

-- `apply_stage_mutation`.
unfoldable pub apply_stage_mutation :
    Database → ℕ → ℕ → ℕ → Option StageMutation → StoreResult Database
apply_stage_mutation db tenant_id run_id now none = ok db
apply_stage_mutation db tenant_id run_id now (some mutation) = do
  expected_version ← to_i64 mutation.expected_version
  reject_if
      (not (count_where (is_mutated tenant_id run_id mutation expected_version) db.stages == 1))
      StoreErrorCode.version_conflict
  version ← sql_add expected_version 1
  ok (record db {
    stages =
        update_where (is_mutated tenant_id run_id mutation expected_version)
          (mutated_row mutation version now) db.stages;
  })

-- `for mutation in command.additional_stage_mutations`.
unfoldable pub apply_stage_mutations :
    Database → ℕ → ℕ → ℕ → List StageMutation → StoreResult Database
unfolding apply_stage_mutation
apply_stage_mutations db tenant_id run_id now [] = ok db
apply_stage_mutations db tenant_id run_id now (mutation ∷ mutations) =
    apply_stage_mutation db tenant_id run_id now (some mutation)
    >>= (λ mutated. apply_stage_mutations mutated tenant_id run_id now mutations)

abbrev pub new_artifact_row : ℕ → ℕ → ℕ → ℕ → NewArtifactRef → ℕ → ℕ → ArtifactRow
new_artifact_row tenant_id run_id task_id now artifact version size_bytes = record {
  artifact_id = artifact.artifact_id;
  tenant_id = tenant_id;
  run_id = run_id;
  stage_execution_id = artifact.stage_execution_id;
  task_id = task_id;
  logical_key = artifact.logical_key;
  kind = artifact.kind;
  contract_version = artifact.contract_version;
  version = version;
  uri = artifact.uri;
  digest = artifact.digest;
  media_type = artifact.media_type;
  size_bytes = size_bytes;
  sources = artifact.sources;
  metadata = artifact.metadata;
  produced_by = artifact.produced_by;
  created_event_id = artifact.created_event_id;
  created_at = now;
}

-- The INSERT of one artifact, with the constraints of its table.
unfoldable pub insert_artifact_ref :
    Database → ℕ → ℕ → ℕ → ℕ → NewArtifactRef → StoreResult Database
insert_artifact_ref db tenant_id run_id task_id now artifact = do
  version ← to_i64 artifact.version
  size_bytes ← to_i64 artifact.size_bytes
  reject_if
      (exists_where
        (λ (a : ArtifactRow).
          a.artifact_id == artifact.artifact_id
          || (a.tenant_id == tenant_id
              && (a.run_id == run_id
                  && (a.logical_key == artifact.logical_key && a.version == version))))
        db.artifacts)
      StoreErrorCode.constraint_violation
  reject_if (not (stage_is_known db tenant_id run_id artifact.stage_execution_id))
      StoreErrorCode.constraint_violation
  ok (record db {
    artifacts =
        db.artifacts
        ++ new_artifact_row tenant_id run_id task_id now artifact version size_bytes ∷ [];
  })

-- `insert_artifact_refs`.
unfoldable pub insert_artifact_refs :
    Database → ℕ → ℕ → ℕ → ℕ → List NewArtifactRef → StoreResult Database
unfolding insert_artifact_ref
insert_artifact_refs db tenant_id run_id task_id now [] = ok db
insert_artifact_refs db tenant_id run_id task_id now (artifact ∷ artifacts) =
    insert_artifact_ref db tenant_id run_id task_id now artifact
    >>= (λ inserted. insert_artifact_refs inserted tenant_id run_id task_id now artifacts)
