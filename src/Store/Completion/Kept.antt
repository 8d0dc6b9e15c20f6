-- ===== src/Store/Completion/Kept.antt =====
-- What the inserts of a completion leave alone.
use mathlib.Core.Path.{subst}
use agent_loom.Base.{
  ℕ, ◌≡◌, refl, sym, not, ◌==◌, count_where, update_where, Option, none, some, List, [], ◌∷◌, ◌++◌,
  arith,
}
use agent_loom.Store.Result.{StoreErrorCode, ok, >>=-eq-ok, ok-eq, to_i64, reject_if}
use agent_loom.Store.Rows.{TaskRow, StageRow, WaitRow, ArtifactRow}
use agent_loom.Store.Claim.{sql_add}
use agent_loom.Store.Outcome.{CommandContext}
use agent_loom.Store.Database.{Database}
use agent_loom.Store.Completion.{CompleteTask, StageMutation, InitialStage, NewArtifactRef}
use agent_loom.Store.Completion.Inserts.{new_stage_row, insert_initial_stage, insert_stages}
use agent_loom.Store.Completion.Stages.{
  is_mutated, mutated_row, new_artifact_row, apply_stage_mutation, apply_stage_mutations,
  insert_artifact_ref, insert_artifact_refs,
}
use agent_loom.Store.Completion.Commit.{apply_structure}

-- The runs, the events and the receipts are alike.
pub record IsQuiet (a b : Database) : Type 0 where
  pub runs : b.runs ≡ a.runs
  pub events : b.events ≡ a.events
  pub receipts : b.receipts ≡ a.receipts
  pub checkpoints : b.checkpoints ≡ a.checkpoints

pub IsQuiet-refl : (a : Database) → IsQuiet a a
IsQuiet-refl a = record { runs = refl; events = refl; receipts = refl; checkpoints = refl }

-- Whatever the tasks, the stages, the waits and the artifacts.
pub IsQuiet-with :
    {a b : Database} {tasks : List TaskRow} {stages : List StageRow} {waits : List WaitRow}
    {artifacts : List ArtifactRow}
    → IsQuiet a b
    → IsQuiet a (record b { tasks = tasks; stages = stages; waits = waits; artifacts = artifacts })
IsQuiet-with k = record {
  runs = k.runs;
  events = k.events;
  receipts = k.receipts;
  checkpoints = k.checkpoints;
}

-- The tasks are alike too.
abbrev pub IsApart : Database → Database → Type 0
IsApart a b = IsQuiet a b × (b.tasks ≡ a.tasks)

pub IsApart-refl : (a : Database) → IsApart a a
IsApart-refl a = (IsQuiet-refl a, refl)

module _ {κ} (P : Database → Type κ) (tenant_id run_id now : ℕ)
    (keep_mutation : (d : Database) (mutation : StageMutation) (expected version : ℕ)
      → P d
      → P (record d {
        stages =
            update_where
              (is_mutated tenant_id run_id mutation expected)
              (mutated_row mutation version now)
              d.stages;
      }))
    (keep_stage : (d : Database) (row : StageRow)
      → P d
      → P (record d { stages = d.stages ++ row ∷ [] }))
    (keep_artifact : (d : Database) (row : ArtifactRow)
      → P d
      → P (record d { artifacts = d.artifacts ++ row ∷ [] })) where
  mutation-keeps :
      (db : Database) (mutation : Option StageMutation) {after : Database}
      → P db
      → apply_stage_mutation db tenant_id run_id now mutation ≡ ok after
      → P after
  unfolding apply_stage_mutation
  mutation-keeps db none h e = subst P (ok-eq e) h
  mutation-keeps db (some mutation) h e =
      let (expected, e1, h1) = >>=-eq-ok (to_i64 mutation.expected_version) _ e in
      let (u, e2, h2) =
        >>=-eq-ok
          (reject_if
            (not (count_where (is_mutated tenant_id run_id mutation expected) db.stages == 1))
            StoreErrorCode.version_conflict)
          _ h1 in
      let (version, e3, h3) = >>=-eq-ok (sql_add expected 1) _ h2 in
      subst P (ok-eq h3) (keep_mutation db mutation expected version h)

  mutations-keeps :
      (db : Database) (mutations : List StageMutation) {after : Database}
      → P db
      → apply_stage_mutations db tenant_id run_id now mutations ≡ ok after
      → P after
  unfolding apply_stage_mutations
  mutations-keeps db [] h e = subst P (ok-eq e) h
  mutations-keeps db (mutation ∷ mutations) h e =
      let (mutated, first, rest) =
        >>=-eq-ok (apply_stage_mutation db tenant_id run_id now (some mutation)) _ e in
      mutations-keeps mutated mutations (mutation-keeps db (some mutation) h first) rest

  stage-keeps :
      (db : Database) (stage : InitialStage) {after : Database}
      → P db
      → insert_initial_stage db tenant_id run_id now stage ≡ ok after
      → P after
  unfolding insert_initial_stage
  stage-keeps db stage {after} h e =
      let same : after
          ≡ record db { stages = db.stages ++ new_stage_row tenant_id run_id now stage ∷ [] } =
        ground arith in
      subst P (sym same) (keep_stage db (new_stage_row tenant_id run_id now stage) h)

  stages-keeps :
      (db : Database) (stages : List InitialStage) {after : Database}
      → P db
      → insert_stages db tenant_id run_id now stages ≡ ok after
      → P after
  unfolding insert_stages
  stages-keeps db [] h e = subst P (ok-eq e) h
  stages-keeps db (stage ∷ stages) h e =
      let (inserted, first, rest) =
        >>=-eq-ok (insert_initial_stage db tenant_id run_id now stage) _ e in
      stages-keeps inserted stages (stage-keeps db stage h first) rest

  artifact-keeps :
      (db : Database) (task_id : ℕ) (artifact : NewArtifactRef) {after : Database}
      → P db
      → insert_artifact_ref db tenant_id run_id task_id now artifact ≡ ok after
      → P after
  unfolding insert_artifact_ref
  artifact-keeps db task_id artifact {after} h e =
      let (version, e1, h1) = >>=-eq-ok (to_i64 artifact.version) _ e in
      let (size, e2, h2) = >>=-eq-ok (to_i64 artifact.size_bytes) _ h1 in
      let row = new_artifact_row tenant_id run_id task_id now artifact version size in
      let same : after ≡ record db { artifacts = db.artifacts ++ row ∷ [] } = ground (arith, h2) in
      subst P (sym same) (keep_artifact db row h)

  artifacts-keeps :
      (db : Database) (task_id : ℕ) (artifacts : List NewArtifactRef) {after : Database}
      → P db
      → insert_artifact_refs db tenant_id run_id task_id now artifacts ≡ ok after
      → P after
  unfolding insert_artifact_refs
  artifacts-keeps db task_id [] h e = subst P (ok-eq e) h
  artifacts-keeps db task_id (artifact ∷ artifacts) h e =
      let (inserted, first, rest) =
        >>=-eq-ok (insert_artifact_ref db tenant_id run_id task_id now artifact) _ e in
      artifacts-keeps inserted task_id artifacts (artifact-keeps db task_id artifact h first) rest

-- What each change of a stage, each new stage and each artifact keeps, they all keep.
pub structure-keeps {κ} :
    (P : Database → Type κ) (db : Database) (run_id : ℕ) (context : CommandContext)
    (command : CompleteTask) (now : ℕ) {after : Database}
    → ((d : Database) (mutation : StageMutation) (expected version : ℕ)
        → P d
        → P (record d {
          stages =
              update_where
                (is_mutated context.tenant_id run_id mutation expected)
                (mutated_row mutation version now)
                d.stages;
        }))
    → ((d : Database) (row : StageRow) → P d → P (record d { stages = d.stages ++ row ∷ [] }))
    → ((d : Database) (row : ArtifactRow)
        → P d
        → P (record d { artifacts = d.artifacts ++ row ∷ [] }))
    → P db
    → apply_structure db run_id context command now ≡ ok after
    → P after
unfolding apply_structure
structure-keeps P db run_id context command now keep_mutation keep_stage keep_artifact h e =
    let tenant_id = context.tenant_id in
    let (mutated, first, h1) =
      >>=-eq-ok (apply_stage_mutation db tenant_id run_id now command.stage_mutation) _ e in
    let (further, second, h2) =
      >>=-eq-ok
        (apply_stage_mutations mutated tenant_id run_id now command.additional_stage_mutations) _
        h1 in
    let (staged, third, h3) =
      >>=-eq-ok (insert_stages further tenant_id run_id now command.new_stages) _ h2 in
    artifacts-keeps P tenant_id run_id now keep_mutation keep_stage keep_artifact staged
      command.lease.task_id command.artifacts
      (stages-keeps P tenant_id run_id now keep_mutation keep_stage keep_artifact further
        command.new_stages
        (mutations-keeps P tenant_id run_id now keep_mutation keep_stage keep_artifact mutated
          command.additional_stage_mutations
          (mutation-keeps P tenant_id run_id now keep_mutation keep_stage keep_artifact db
            command.stage_mutation h first)
          second)
        third)
      h3

-- The changes of stages, the new stages and the artifacts leave the tasks alone.
pub structure-IsApart :
    (db : Database) (run_id : ℕ) (context : CommandContext) (command : CompleteTask) (now : ℕ)
    {after : Database}
    → apply_structure db run_id context command now ≡ ok after
    → IsApart db after
structure-IsApart db run_id context command now =
    structure-keeps (IsApart db) db run_id context command now
      (λ d mutation expected version k. (IsQuiet-with k.0, k.1))
      (λ d row k. (IsQuiet-with k.0, k.1)) (λ d row k. (IsQuiet-with k.0, k.1)) (IsApart-refl db)
