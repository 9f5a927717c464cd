-- ===== src/Agent/System/Report.antt =====
-- agent_layer/graphs/system.py: the text of the namespace report, and the result of a run.
use kuber.Base.{ℕ, String, Bool, Option, List, [], ◌∷◌, if◌then◌else◌}
use kuber.Base.Text.{concat, join, show}
use kuber.Base.Sort.{sorted, at_most_text}
use kuber.Base.Result.{Result, ok, map_ok, map_result, ◌>>=◌}
use kuber.Agent.Exec.{item}
use kuber.Context.Models.{ServiceContext}
use kuber.Event.Contracts.{EventEnvelope, Fields, get_field}
use kuber.Event.Worker.{str}
use kuber.Agent.System.{SystemGraphState, is_accepted}

-- `SystemRunResult`, less the trajectory's path.
pub record SystemRunResult : Type 0 where
  pub run_id : String
  pub namespace : String
  pub services : List ServiceContext
  pub results : List EventEnvelope
  pub system_passed : Bool
  pub report_path : Option String

-- The end of `run`, on the last state and the path of the report.
unfoldable pub result_of : SystemGraphState × Option String → Result SystemRunResult
result_of (final, path) = do
  services ← item "services" final.services
  results ← item "result_events" final.result_events
  passed ← item "system_passed" final.system_passed
  ok (record {
    run_id = final.run_id;
    namespace = final.namespace;
    services = services;
    results = results;
    system_passed = passed;
    report_path = path;
  })

abbrev pub status_text : Bool → String
status_text passed = if passed then "PASS" else "FAIL"

-- `value[name]` in the f-strings of a row.
abbrev pub cell : (Fields → String) → String → EventEnvelope → Result String
cell repr name event = map_ok (str repr) (item name (get_field name event.payload))

unfoldable pub row : (Fields → String) → EventEnvelope → Result String
row repr event = do
  workload_id ← cell repr "workload_id" event
  worker_id ← cell repr "worker_id" event
  original_permissions ← cell repr "original_permissions" event
  final_permissions ← cell repr "final_permissions" event
  original_risk ← cell repr "original_risk" event
  final_risk ← cell repr "final_risk" event
  tests_passed ← cell repr "tests_passed" event
  tests_total ← cell repr "tests_total" event
  repairs ← cell repr "repairs" event
  ok (
      concat (
        "| "
        ∷ workload_id
        ∷ " | "
        ∷ worker_id
        ∷ " | "
        ∷ original_permissions
        ∷ " → "
        ∷ final_permissions
        ∷ " | "
        ∷ original_risk
        ∷ " → "
        ∷ final_risk
        ∷ " | "
        ∷ tests_passed
        ∷ "/"
        ∷ tests_total
        ∷ " | "
        ∷ repairs
        ∷ " | "
        ∷ status_text (is_accepted event)
        ∷ " |"
        ∷ []))

-- The key of the sort, next to its event.
abbrev pub keyed : (Fields → String) → EventEnvelope → Result (String × EventEnvelope)
keyed repr event = map_ok (λ key. (key, event)) (cell repr "workload_id" event)

abbrev pub before_row : String × EventEnvelope → String × EventEnvelope → Bool
before_row (a, x) (b, y) = at_most_text a b

-- The lines of the table, in the order of the workloads.
unfoldable pub rows : (Fields → String) → List EventEnvelope → Result (List String)
unfolding row sorted map_result
rows repr events = do
  pairs ← map_result (keyed repr) events
  map_result (λ (key, event). row repr event) (sorted before_row pairs)

unfoldable pub report_text : SystemGraphState → ℕ → ℕ → Bool → List String → String
unfolding show
report_text state services results passed lines = concat (
    "# Kuber namespace report: "
    ∷ state.namespace
    ∷ "\n\n- Run ID: `"
    ∷ state.run_id
    ∷ "`\n- Services discovered: "
    ∷ show services
    ∷ "\n- Workload results received: "
    ∷ show results
    ∷ "\n- System verification: **"
    ∷ status_text passed
    ∷ "**\n\n| Service | Worker | Permissions | Risk | Tests | Repairs | Result |\n"
    ∷ "|---|---|---:|---:|---:|---:|---|\n"
    ∷ join "\n" lines
    ∷ "\n"
    ∷ [])
