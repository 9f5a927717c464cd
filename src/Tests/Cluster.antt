-- ===== src/Tests/Cluster.antt =====
-- The live environment over a small host, and a manifest read back.
use mathlib.Core.Option.{some-injective}
use kuber.Base.{
  String, ◌≡◌, refl, sym, subst, inl, inr, ◌⊎◌, true, false, none, some, [], ◌∷◌, ◌==◌, ==_iff,
  string_eq, option_eq, list_eq, nat_eq, if◌then◌else◌, arith,
}
use kuber.Base.Lists.{Memᴰ-cons_cases}
use kuber.Base.Result.{ok}
use kuber.Agent.Workload.Run as Workload
use kuber.Rbac.Resolver.{resolve_effective_policy}
use kuber.Rbac.Canonicalizer.{is_supported_resource, resources_of}
use kuber.Base.Dict.{get, put}
use kuber.Base.Sort.{sorted, tuple_leb}
use kuber.Rbac.Yaml.{no_items, sequence_of}
use kuber.Rbac.Parser.{flatten_documents}
use kuber.Rbac.Parser.Documents.{parse_rbac, parse_loaded, add_documents}
use kuber.Rbac.Generator.{
  policy_to_documents, policy_to_yaml, scopes_of, group_scopes, scope_documents, role_entries,
  binding_entries,
}
use kuber.Rbac.Generator.RoundTrip.Writable.{IsWritable, IsWritablePermission}
use kuber.Rbac.Generator.RoundTrip.{ReadsBack, documents-ReadsBack}
use kuber.Texts.{strip, has_newline}
use kuber.Kubernetes.Environment.{
  Host, finished, EnvironmentConfig, KubernetesEnvironment, start, account, run, kubectl, has_label,
  is_recognized_sandbox, construct_from, construct,
}
use kuber.Kubernetes.Environment.Policies.{propose, apply_policy}
use kuber.Kubernetes.Environment.DryRun.Reads.{OnlyReads}
use kuber.Kubernetes.Environment.DryRun.{graph_config, dry_run-reads}
use kuber.Kubernetes.Environment.Guard.{IsSandbox, context_command, construct-guarded}
use kuber.Kubernetes.Environment.Validation.{IsReadBack, apply_policy-proposes}
use kuber.Samples.{initial, explain}

-- Each command succeeds; the context is the sandbox's, and any other answer is `true`.
abbrev host : Host (Unit {0})
host = record {
  run = λ command input cluster. (
    finished (record {
      returncode = 0;
      stdout = if command == context_command then "kind-kuber\n" else "true";
      stderr = "";
    }),
    cluster,
  );
  error_text = λ command spawned. "";
  write_file = λ path content cluster. (ok tt, cluster);
  read_file = λ path cluster. some "";
  load_all = λ content. some no_items;
  dump_all = λ documents. "documents\n";
  loads = λ content. none;
  repr = λ fields. "{}";
  polls = 1;
}

abbrev config : EnvironmentConfig
config = record {
  context = "kind-kuber";
  namespace = "shop";
  service_account = "worker";
  deployment_name = "worker";
  workload_id = "worker";
  smoke_command = "./smoke.sh" ∷ [];
  initial_manifest = "rbac.yaml";
  original_binding_name = "worker-overprivileged";
  dry_run = none;
  allow_unsafe_context = false;
  artifact_directory = "artifacts";
}

abbrev dry : KubernetesEnvironment (Unit {0})
dry = start host config initial tt

dry_run-reads_example :
    OnlyReads config
      (Workload.run (graph_config host explain 1) 16 "run-1" none none "ref" "ref" dry).1.issued
dry_run-reads_example =
    dry_run-reads host explain 1 16 "run-1" none none "ref" "ref" dry refl refl refl (omega arith)

live : KubernetesEnvironment (Unit {0})
live =
    record (start host config
      (resolve_effective_policy (record { service_accounts = []; roles = []; bindings = [] })
        (account config))
      tt) {
        safe = true;
        dry_run = false;
        issued =
            context_command
            ∷ ("kubectl" ∷ "--context" ∷ "kind-kuber" ∷ "get" ∷ "namespace" ∷ "shop" ∷ "-o"
                ∷ "jsonpath={.metadata.labels.kuber\\.dev/sandbox}" ∷ [])
            ∷ [];
      }

live_made : construct host config tt ≡ ok live
unfolding live construct construct_from parse_loaded parse_rbac flatten_documents add_documents
    is_recognized_sandbox has_label run kubectl strip
live_made = refl

is_live : live.dry_run ≡ false
unfolding live
is_live = refl

construct-guarded_example : (config.allow_unsafe_context ≡ true) ⊎ IsSandbox host config tt
construct-guarded_example = construct-guarded host config tt live live_made is_live

initial-IsWritable : IsWritable initial
unfolding is_supported_resource resources_of get
initial-IsWritable = record {
  account = λ e. cc;
  account_namespace = λ e. cc;
  each = λ p m. elim (Memᴰ-cons_cases m) [
    | inl here ↦ subst IsWritablePermission (sym here) (record {
      verb = refl;
      resource = refl;
      namespace = λ e. cc (named_differs "shop" e);
      name = λ e. cc (named_differs "app" e);
    })
    | inr rest ↦ elim (Memᴰ-cons_cases rest) [
      | inl here ↦ subst IsWritablePermission (sym here) (record {
        verb = refl;
        resource = refl;
        namespace = λ e. cc (named_differs "shop" e);
        name = λ e. cc;
      })
      | inr nothing ↦ elim nothing [ ]
    ]
  ];
}
  where
    text_differs : (s : String) → s ≡ "" → (s == "") ≡ true
    text_differs s e = (==_iff s "").1 e

    named_differs : (s : String) → some s ≡ some "" → (s == "") ≡ true
    named_differs s e = text_differs s (some-injective s "" e)

documents-ReadsBack_example : ReadsBack initial
documents-ReadsBack_example = documents-ReadsBack initial initial-IsWritable

abbrev disk : Host (Unit {0})
disk = record host { load_all = λ content. some (sequence_of (policy_to_documents initial)) }

disk-IsReadBack : IsReadBack disk initial
unfolding policy_to_yaml policy_to_documents scopes_of group_scopes scope_documents role_entries
    binding_entries get put sorted tuple_leb has_newline
disk-IsReadBack = record { read = refl; has_line = refl }

apply_policy-proposes_example :
    apply_policy disk initial dry
    ≡ propose disk initial (policy_to_yaml disk.dump_all initial) dry dry
apply_policy-proposes_example =
    apply_policy-proposes disk initial dry initial-IsWritable disk-IsReadBack refl
