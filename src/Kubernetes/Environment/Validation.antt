-- ===== src/Kubernetes/Environment/Validation.antt =====
-- `apply_policy`: the validation of a proposal never refuses a policy that a manifest can express.
use kuber.Base.{
  ◌≡◌, sym, subst, true, some, List, Memᴰ, map, list_eq, option_eq, string_eq, contains,
  contains_iff,
}
use kuber.Base.Lists.{all, all-intro, Memᴰ-map}
use kuber.Models.Permission.{Permission, key, key_of_SameCapability}
use kuber.Models.Policy.{Policy}
use kuber.Rbac.Authorization.Laws.{Includes}
use kuber.Rbac.Resolver.{resolve_effective_policy}
use kuber.Rbac.Yaml.{sequence_of}
use kuber.Rbac.Parser.Documents.{parse_loaded}
use kuber.Rbac.Generator.{policy_to_documents, policy_to_yaml}
use kuber.Rbac.Generator.Scopes.{account_of}
use kuber.Rbac.Generator.RoundTrip.Writable.{IsWritable}
use kuber.Rbac.Generator.RoundTrip.{documents-ReadsBack}
use kuber.Texts.{has_newline}
use kuber.Kubernetes.Environment.{Host, KubernetesEnvironment, account}
use kuber.Kubernetes.Environment.Policies.{same_keys, parse_yaml, propose, validate, apply_policy}

Includes-keys :
    (ps qs : List Permission) → Includes qs ps → all (λ p. contains (map key qs) (key p)) ps ≡ true
Includes-keys ps qs includes =
    all-intro (λ p. contains (map key qs) (key p)) ps
      (λ p m.
        let (q, n, same) = includes p m in
        (contains_iff (map key qs) (key p)).1
          (subst (λ k. Memᴰ k (map key qs)) (sym (key_of_SameCapability same)) (Memᴰ-map key n)))

same_keys_of_Includes :
    (ps qs : List Permission) → Includes qs ps → Includes ps qs → same_keys ps qs ≡ true
unfolding same_keys
same_keys_of_Includes ps qs there back = rw (Includes-keys ps qs there, Includes-keys qs ps back)

-- PyYAML reads the text that it wrote for the policy as the documents, and the text has a line end.
pub record IsReadBack {K : Type 0} (host : Host K) (policy : Policy) : Type 0 where
  pub read :
      host.load_all (policy_to_yaml host.dump_all policy)
      ≡ some (sequence_of (policy_to_documents policy))
  pub has_line : has_newline (policy_to_yaml host.dump_all policy) ≡ true

-- Where a policy of the environment's account can be written as in the round trip, and PyYAML
-- reads the text that it wrote for the policy as the documents and that text has a line end:
-- applying the policy goes on from the validation to the proposal, so the check of the
-- generated manifest never refuses such a policy.
pub apply_policy-proposes :
    {K : Type 0} (host : Host K) (policy : Policy) (env : KubernetesEnvironment K)
    → IsWritable policy
    → IsReadBack host policy
    → account_of policy ≡ account env.config
    → apply_policy host policy env
      ≡ propose host policy (policy_to_yaml host.dump_all policy) env env
unfolding apply_policy parse_yaml parse_loaded validate
apply_policy-proposes host policy env writable yaml owner =
    let back = documents-ReadsBack policy writable in
    let valid : same_keys (resolve_effective_policy back.objects (account env.config)).permissions
          policy.permissions
        ≡ true =
      subst
        (λ a.
          same_keys (resolve_effective_policy back.objects a).permissions policy.permissions ≡ true)
        owner
        (same_keys_of_Includes
          (resolve_effective_policy back.objects (account_of policy)).permissions policy.permissions
          back.sound back.complete) in
    rw (yaml.has_line, yaml.read, back.parses, valid)
