-- ===== src/Kubernetes/Environment/Factory.antt =====
-- kubernetes_runtime/adapter/factory.py: an environment for the workload of an event.
use kuber.Base.{String, false, not, none, [], ◌∷◌, ◌==◌, string_eq, if◌then◌else◌}
use kuber.Base.Text.{concat}
use kuber.Base.Result.{Result, ok, raise, value_error, ◌>>=◌, map_ok}
use kuber.Agent.Exec.{item}
use kuber.Event.Contracts.{EventEnvelope, get_field}
use kuber.Context.Models.{IndexedServiceContext}
use kuber.Event.Worker.{str}
use kuber.Kubernetes.Environment.{Host, EnvironmentConfig, KubernetesEnvironment, construct}

-- The factory's own arguments.
pub record FactoryConfig : Type 0 where
  pub context : String
  pub artifact_directory : String

module _ {K : Type 0} (host : Host K) where
  -- `str(payload[name])`
  abbrev pub payload_text : EventEnvelope → String → Result String
  payload_text event name = map_ok (str host.repr) (item name (get_field name event.payload))

  -- The arguments that `create` gives the constructor.
  unfoldable pub environment_config :
      FactoryConfig → EventEnvelope → IndexedServiceContext → Result EnvironmentConfig
  environment_config factory event context = do
    workload_id ← payload_text event "workload_id"
    if not (workload_id == context.service_id)
        then raise (value_error "event and service context workload identifiers differ")
        else (do
          namespace ← payload_text event "namespace"
          service_account ← payload_text event "service_account"
          deployment ← payload_text event "deployment"
          ok (record {
            context = factory.context;
            namespace = namespace;
            service_account = service_account;
            deployment_name = deployment;
            workload_id = workload_id;
            smoke_command = "./deploy/kind/scripts/service-smoke.sh" ∷ workload_id ∷ [];
            initial_manifest = "deploy/kind/reference-rbac.yaml";
            original_binding_name = concat (workload_id ∷ "-overprivileged" ∷ []);
            dry_run = none;
            allow_unsafe_context = false;
            artifact_directory = factory.artifact_directory;
          }))

  -- `create`
  unfoldable pub create :
      FactoryConfig → K → EventEnvelope → IndexedServiceContext → Result (KubernetesEnvironment K)
  unfolding environment_config construct
  create factory cluster event context = do
    config ← environment_config factory event context
    construct host config cluster
