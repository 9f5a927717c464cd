-- ===== src/Tests/Coordinator.antt =====
-- The indexer and the system graph on a small service.
use kuber.Base.{
  ◌==◌, ==_refl, ◌++◌, Memᴰ, inl, inr, subst, ap, ◌≡◌, ◌↔◌, refl, string_eq, nat_eq, list_eq,
  option_eq, pair_eq, List, some, none, [], ◌∷◌, true, false,
}
use kuber.Base.Result.{ok}
use kuber.Base.Dict.{get, put}
use kuber.Base.Lists.{find, Memᴰ-cons_cases}
use kuber.Event.Contracts.{
  EventEnvelope, workload_optimization_completed, flag, field, no_fields, get_field,
}
use kuber.Event.Topic
use kuber.Event.Bus.{Bus, ack_key_eq, publish}
use kuber.Event.Bus.Settle.{acknowledge}
use kuber.Agent.System.{SystemWorld, SystemConfig, dispatch}
use kuber.Agent.System.Completion.{wait_for_completion, verify_system}
use kuber.Context.Models.{ServiceContext, IndexedServiceContext}
use kuber.Context.Indexer.{
  FilePath, IndexerConfig, IndexResult, resolve_files, indexed, stored, index, is_relative_to,
}
use kuber.Context.Indexer.Selected.{IsSelected}
use kuber.Context.Indexer.Selection.{
  WalksDown, IsInside, is_relative_to-append, resolve_files_iff, resolve_files_exact,
  resolve_files-contained,
}
use kuber.Context.Indexer.Reuse.{KeepsLatest, index_again}
use kuber.Agent.System.Run.{IsVerified, run-IsVerified}
use kuber.Agent.System.Report.{SystemRunResult, result_of}
use kuber.Agent.System.Graph.{
  GraphParts, GraphWorld, discover_system, build_registry, index_contexts, aggregate, report,
  prepare, conclude, run,
}

abbrev new_bus : Bus
new_bus = record {
  partitions = 3;
  logs = [];
  queues = [];
  acknowledged = [];
  closed = false;
  issued = 0;
}

abbrev answer : EventEnvelope
answer = record {
  event_type = workload_optimization_completed;
  run_id = "run-1";
  correlation_id = "run-1";
  payload = field "accepted" (flag true) no_fields;
  event_id = "event-1";
  timestamp = "now";
  causation_id = none;
  attempt = 0;
  schema_version = "1";
}

-- A worker answers before the first read.
abbrev config : SystemConfig
config = record {
  cluster = "kind";
  supply = record { uuid = λ n. "id"; clock = λ n. "now" };
  system_verifier = some (ok true);
  others = (λ bus. (publish Topic.optimization_results answer "key" bus).1) ∷ [];
}

abbrev world : SystemWorld
world = record { bus = new_bus; actions = [] }

abbrev service : ServiceContext
service = record {
  service_id = "worker";
  namespace = "shop";
  workload_kind = "Deployment";
  deployment_name = "worker";
  service_account = "worker";
  source_repository = record {
    service_id = "worker";
    local_path = "/src/worker";
    remote_url = none;
    commit_sha = none;
  };
  important_paths = "." ∷ [];
  verification_profile = "worker";
  labels = [];
  container_images = [];
  kubernetes_usage = [];
  dependencies = [];
  last_indexed_commit = none;
}

abbrev root : FilePath
root = "src" ∷ "worker" ∷ []

abbrev main_file : FilePath
main_file = "src" ∷ "worker" ∷ "main.py" ∷ []

-- The store keeps the contexts, the last one first.
abbrev indexer : IndexerConfig (List IndexedServiceContext)
indexer = record {
  files = record {
    resolve = λ path. root;
    resolve_below = λ directory relative. directory;
    is_dir = λ path. path == root;
    is_file = λ path. path == main_file;
    rglob = λ path. (path ++ "main.py" ∷ []) ∷ [];
    size = λ path. 7;
    read_bytes = λ path. ok "kubectl";
  };
  store = record {
    latest = λ id contexts. (ok (find (λ c. c.service_id == id) contexts), contexts);
    put = λ context contexts. (ok tt, context ∷ contexts);
  };
  maximum_file_bytes = 1000;
  sha256 = λ content. "0123456789abcdef0123";
  encode = λ text. text;
}

abbrev parts : GraphParts (List IndexedServiceContext)
parts = record {
  config = config;
  discover = λ namespace. ok (service ∷ []);
  put_answer = λ service. ok tt;
  indexer = indexer;
  report_directory = none;
  repr = λ fields. "{}";
}

abbrev graph_world : GraphWorld (List IndexedServiceContext)
graph_world = record { system = world; registered = []; store = []; reports = [] }

abbrev verified : SystemRunResult
verified = record {
  run_id = "run-1";
  namespace = "shop";
  services = service ∷ [];
  results = answer ∷ [];
  system_passed = true;
  report_path = none;
}

files_found : resolve_files indexer root ("." ∷ []) ≡ ok (main_file ∷ [])
unfolding resolve_files put
files_found = refl

abbrev first_index : IndexResult
first_index = record {
  context = record {
    context_ref = "context://worker/0123456789abcdef";
    service_id = "worker";
    content_hash = "0123456789abcdef0123";
    files = "main.py" ∷ [];
    bytes_loaded = 7;
    languages = "Python" ∷ [];
    kubernetes_usage = "main.py" ∷ [];
    dependencies = [];
    entry_points = "main.py" ∷ [];
  };
  reused = false;
}

indexed_first : index indexer service [] ≡ (ok first_index, first_index.context ∷ [])
unfolding index indexed stored put
indexed_first = refl

run_returns : (run parts "id" (some "run-1") "shop" graph_world).0 ≡ ok verified
unfolding run prepare conclude discover_system build_registry index_contexts index indexed put
    stored dispatch publish wait_for_completion get acknowledge aggregate verify_system get_field
    report result_of
run_returns = refl

resolve_files_exact_example :
    Memᴰ main_file (main_file ∷ []) ↔ IsSelected indexer root ("." ∷ []) main_file
resolve_files_exact_example =
    resolve_files_exact indexer root ("." ∷ []) (main_file ∷ []) main_file files_found

walks : WalksDown indexer.files
unfolding is_relative_to
walks directory found m = elim (Memᴰ-cons_cases m) [
  | inl same ↦ rw same (is_relative_to-append directory ("main.py" ∷ []))
  | inr nothing ↦ elim nothing [ ]
]

resolve_files-contained_example : is_relative_to root main_file ≡ true
resolve_files-contained_example =
    resolve_files-contained indexer root ("." ∷ []) (main_file ∷ []) main_file walks files_found
      (Memᴰ.head refl)

resolve_files_iff_example :
    ((files : List FilePath) × (resolve_files indexer root ("." ∷ []) ≡ ok files))
    ↔ ((indexer.files.is_dir root ≡ true) × IsInside indexer root ("." ∷ []))
resolve_files_iff_example = resolve_files_iff indexer root ("." ∷ [])

keeps : KeepsLatest indexer.store
keeps = record {
  latest-put = λ context s after e.
      subst (λ kept. indexer.store.latest context.service_id kept ≡ (ok (some context), kept))
        (ap (λ r. r.1) e) (rw (==_refl context.service_id));
  latest-reads = λ id s. refl;
}

index_again_example :
    index indexer service (first_index.context ∷ [])
    ≡ (ok (record { context = first_index.context; reused = true }), first_index.context ∷ [])
index_again_example =
    index_again indexer keeps service [] (first_index.context ∷ []) first_index indexed_first

run-IsVerified_example : IsVerified parts "shop" verified
run-IsVerified_example = run-IsVerified parts "id" (some "run-1") "shop" graph_world run_returns
