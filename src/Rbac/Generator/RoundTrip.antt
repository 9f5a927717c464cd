-- ===== src/Rbac/Generator/RoundTrip.antt =====
-- What the generator writes, the parser and the resolver read as the policy that was written.
mod Resolved
pub mod Writable
use kuber.Base.{◌≡◌, string_eq, option_eq, arith}
use kuber.Base.Result.{ok}
use kuber.Models.Policy.{Policy}
use kuber.Models.Rbac.{ParsedRbac}
use kuber.Rbac.Authorization.Laws.{Includes}
use kuber.Rbac.Resolver.{resolve_effective_policy}
use kuber.Rbac.Yaml.{sequence_of}
use kuber.Rbac.Parser.Documents.{parse_rbac}
use kuber.Rbac.Generator.{policy_to_documents}
use kuber.Rbac.Generator.Scopes.{account_of}
use kuber.Rbac.Generator.RoundTrip.Writable.{IsWritable, manifest_objects, parse_rbac-documents}
use kuber.Rbac.Generator.RoundTrip.Resolved.{read_soundly, read_completely}

-- What is read back of a manifest of a policy.
pub record ReadsBack (policy : Policy) : Type 0 where
  pub objects : ParsedRbac
  pub parses : parse_rbac (sequence_of (policy_to_documents policy)) ≡ ok objects
  pub sound :
      Includes policy.permissions (resolve_effective_policy objects (account_of policy)).permissions
  pub complete :
      Includes (resolve_effective_policy objects (account_of policy)).permissions policy.permissions

-- Where the account of a policy and its namespace are named, each permission has a supported
-- resource and verb, and no namespace or resource name is the empty text: the parser returns
-- objects for the generated documents, and the policy that they resolve to for the account has
-- the same capabilities as the policy, each way.
pub documents-ReadsBack : (policy : Policy) → IsWritable policy → ReadsBack policy
documents-ReadsBack policy w = record {
  objects = manifest_objects policy;
  parses = parse_rbac-documents policy w;
  sound = read_soundly policy;
  complete = read_completely policy;
}
