-- ===== src/Tests/Manifests.antt =====
-- Manifests on the samples: what the generator writes, the parser reads.
use kuber.Base.{◌≡◌, refl, string_eq, option_eq, list_eq, some, [], ◌∷◌, false}
use kuber.Base.Result.{ok, map_result}
use kuber.Base.Dict.{get}
use kuber.Base.Sort.{sorted, tuple_leb}
use kuber.Models.Rbac.{ParsedRbac}
use kuber.Rbac.Canonicalizer.{is_supported_resource, resources_of}
use kuber.Rbac.Yaml.{Items, get_entry, sequence_of}
use kuber.Rbac.Parser.{
  strings, metadata, rule, rules, flatten_documents, flatten_document, flatten_list, flatten_items,
}
use kuber.Rbac.Parser.Documents.{
  role_ref, subject, subjects, binding, role, service_account, add_object, add_document,
  add_documents, parse_rbac,
}
use kuber.Rbac.Parser.Valid.{IsValidParse, parse_rbac-IsValid}
use kuber.Rbac.Generator.{
  group_verbs, rule_entry, rule_documents, group_scopes, scope_documents, policy_to_documents,
}
use kuber.Samples.{initial}

-- The manifest of a policy, read again.
abbrev manifest : Items
manifest = sequence_of (policy_to_documents initial)

abbrev read_again : ParsedRbac
read_again = record {
  service_accounts = [];
  roles =
      record {
        name = "worker-effective-shop";
        namespace = some "shop";
        rules =
            record {
              api_groups = "" ∷ [];
              resources = "configmaps" ∷ [];
              verbs = "get" ∷ [];
              resource_names = "app" ∷ [];
            }
            ∷ record {
              api_groups = "" ∷ [];
              resources = "pods" ∷ [];
              verbs = "*" ∷ [];
              resource_names = [];
            }
            ∷ [];
        cluster_role = false;
      }
      ∷ [];
  bindings =
      record {
        name = "worker-effective-shop-binding";
        namespace = some "shop";
        role_name = "worker-effective-shop";
        role_kind = "Role";
        subjects = record { name = "worker"; namespace = "shop" } ∷ [];
        cluster_binding = false;
      }
      ∷ [];
}

manifest_read : parse_rbac manifest ≡ ok read_again
unfolding parse_rbac flatten_documents flatten_document flatten_list flatten_items add_documents
    add_document add_object service_account role binding role_ref subjects subject rules rule
    strings metadata map_result get_entry is_supported_resource resources_of get group_verbs
    rule_entry rule_documents group_scopes scope_documents policy_to_documents sorted tuple_leb
manifest_read = refl

parse_rbac-IsValid_example : IsValidParse read_again
parse_rbac-IsValid_example = parse_rbac-IsValid manifest manifest_read
