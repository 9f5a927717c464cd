-- ===== src/Context/Models.antt =====
-- context_layer/models.py: the records of services and of their indexed files.
use kuber.Base.{ℕ, String, not, Option, List, ◌==◌, string_eq, if◌then◌else◌}
use kuber.Base.Dict.{Dict}
use kuber.Base.Result.{Result, ok, raise, value_error}

pub record RepositorySource : Type 0 where
  pub service_id : String
  pub local_path : String
  pub remote_url : Option String
  pub commit_sha : Option String

pub record ServiceContext : Type 0 where
  pub service_id : String
  pub namespace : String
  pub workload_kind : String
  pub deployment_name : String
  pub service_account : String
  pub source_repository : RepositorySource
  pub important_paths : List String
  pub verification_profile : String
  pub labels : Dict String String
  pub container_images : List String
  pub kubernetes_usage : List String
  pub dependencies : List String
  pub last_indexed_commit : Option String

-- `__post_init__`
unfoldable pub checked : ServiceContext → Result ServiceContext
checked service =
    if not (service.source_repository.service_id == service.service_id)
    then raise (value_error "repository service_id must match service context")
    else ok service

pub record IndexedServiceContext : Type 0 where
  pub context_ref : String
  pub service_id : String
  pub content_hash : String
  pub files : List String
  pub bytes_loaded : ℕ
  pub languages : List String
  pub kubernetes_usage : List String
  pub dependencies : List String
  pub entry_points : List String
