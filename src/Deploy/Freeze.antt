-- ===== src/Deploy/Freeze.antt =====
-- What CreateOperation freezes and the scheduler compares: the secret references of a feature on
-- a node, and their hash (deployment_ops.go and deployment_scheduler.go of backend/internal/service).
use Prim.Native.String.{compare as compare_text}
use Prim.Native.Nat.{Ordering}
use server_cli.Common.{String, Bool, true, false, if◌then◌else◌, List, [], ◌∷◌, ◌++◌}
use server_cli.Deploy.Model.{SecretReference, DeployDb, DeployExternal}
use server_cli.Deploy.Store.{secret_references_of}

-- secretRefs: the shared references and the node's.
unfoldable pub secret_refs : DeployDb → String → String → List SecretReference
secret_refs db feature_id node_id =
    secret_references_of db feature_id "shared" ""
    ++ secret_references_of db feature_id "node" node_id

abbrev pub ref_before : SecretReference → SecretReference → Bool
ref_before r s = elim (compare_text r.id s.id) [ Ordering.lt ↦ true | _ ↦ false ]

unfoldable pub insert_ref : SecretReference → List SecretReference → List SecretReference
insert_ref r [] = r ∷ []
insert_ref r (s ∷ ss) =
    let rest = insert_ref r ss in if ref_before s r then s ∷ rest else r ∷ s ∷ ss

-- sort.Slice by RefID. Identifiers are keys, so no two are equal.
unfoldable pub sort_refs : List SecretReference → List SecretReference
sort_refs [] = []
sort_refs (r ∷ rs) = insert_ref r (sort_refs rs)

-- canonicalSecretRefsHash.
unfoldable pub canonical_refs_hash :
    {Args : Type 0} → DeployExternal Args → List SecretReference → String
canonical_refs_hash ext rs = ext.hash_refs (sort_refs rs)
