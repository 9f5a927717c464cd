-- ===== src/Samples.antt =====
-- Sample calls, policies and a benchmark case for the tests.
use kuber.Base.{String, false, Option, none, some, [], ◌∷◌}
use kuber.Models.Event.{KubeEvent}
use kuber.Models.Permission.{Permission}
use kuber.Models.Policy.{Policy, PolicyRule}
use kuber.Models.Rbac.{ServiceAccountRef, ParsedRbac}
use kuber.Agent.Environment.{FailureDescription}
use kuber.Agent.Workload.{Explanation}
use kuber.Judge.Simulator.{BenchmarkCase}

abbrev pub call : String → String → Option String → KubeEvent
call verb resource name = record {
  api_group = "";
  resource = resource;
  verb = verb;
  namespace = some "shop";
  resource_name = name;
  workload_id = none;
}

abbrev pub get_pod : KubeEvent
get_pod = call "get" "pods" none

abbrev pub get_config : KubeEvent
get_config = call "get" "configmaps" (some "app")

abbrev pub get_secret : KubeEvent
get_secret = call "get" "secrets" none

abbrev pub grant : String → String → Option String → Permission
grant verb resource name = record {
  api_group = "";
  resource = resource;
  verb = verb;
  namespace = some "shop";
  resource_name = name;
  source = none;
}

-- Everything on pods, and one named configuration.
abbrev pub initial : Policy
initial = record {
  permissions = grant "get" "configmaps" (some "app") ∷ grant "*" "pods" none ∷ [];
  name = "worker-effective";
  service_account = "worker";
  service_account_namespace = "shop";
}

abbrev pub pods_only : Policy
pods_only = record initial { permissions = grant "*" "pods" none ∷ [] }

abbrev pub worker : ServiceAccountRef
worker = record { name = "worker"; namespace = "shop" }

abbrev pub pod_rule : PolicyRule
pod_rule = record {
  api_groups = "" ∷ [];
  resources = "pods" ∷ [];
  verbs = "get" ∷ "list" ∷ [];
  resource_names = [];
}

abbrev pub parsed : ParsedRbac
parsed = record {
  service_accounts = [];
  roles =
      record {
        name = "reader";
        namespace = some "shop";
        rules = pod_rule ∷ [];
        cluster_role = false;
      }
      ∷ [];
  bindings =
      record {
        name = "bind";
        namespace = some "shop";
        role_name = "reader";
        role_kind = "Role";
        subjects = worker ∷ [];
        cluster_binding = false;
      }
      ∷ [];
}

-- One call is observed, and the verification makes another one as well.
abbrev pub case : BenchmarkCase
case = record {
  identifier = "shop-worker";
  name = "shop worker";
  description = "";
  initial_policy = initial;
  observed_events = get_pod ∷ [];
  verification_tests =
      record { name = "pods"; events = get_pod ∷ [] }
      ∷ record { name = "settings"; events = get_pod ∷ get_config ∷ [] }
      ∷ [];
  expected_policy = none;
}

abbrev pub explain : FailureDescription → Explanation
explain failure = record { text = failure.summary; source = "template" }
