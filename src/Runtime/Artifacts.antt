-- ===== src/Runtime/Artifacts.antt =====
-- GraphRuntime._register_artifact.
pub mod Frame
use graph_engineering.Prelude.{
  String, Bool, true, false, ◌&&◌, ◌||◌, Option, none, some, List, [], ◌∷◌, ◌++◌, Except, ok,
  require, runtime_invariant, ◌>>=◌, ◌>>◌, ◌==◌, is_some, if◌then◌else◌, any, find_first,
}
use graph_engineering.Models.Common.{Artifact, names}
use graph_engineering.Runtime.Rows.{Role, runtime, verifier, executor}
use graph_engineering.Runtime.State.{Run, enqueue_event}

abbrev pub is_verifier_role : Role → Bool
is_verifier_role verifier = true
is_verifier_role _ = false

abbrev same_role : Role → Role → Bool
same_role runtime runtime = true
same_role verifier verifier = true
same_role executor executor = true
same_role _ _ = false

-- INSERT OR IGNORE INTO artifact_metadata: the id is the primary key and the uri is unique.
add_metadata : Artifact → List Artifact → List Artifact
add_metadata a table =
    if any (λ b. b.artifact_id == a.artifact_id || b.uri == a.uri) table
    then table
    else table ++ a ∷ []

same_digest : Option String → Option String → Bool
same_digest none b = false
same_digest (some a) b = names b a

stored_matches : Artifact → Option Artifact → Bool
unfolding same_digest
stored_matches a none = false
stored_matches a (some stored) =
    stored.uri == a.uri && same_digest stored.sha256_digest a.sha256_digest

-- node_id or None
or_none : String → Option String
or_none s = if s == "" then none else some s

add_run_artifact : String → Role → Artifact → Run → Run
unfolding or_none
add_run_artifact node_id role a r =
    if any
      (λ row. row.artifact_id == a.artifact_id && row.node_id == node_id && same_role row.role role)
      r.artifacts
    then r
    else enqueue_event "artifact.created" (or_none node_id) none (record r {
      artifacts =
          r.artifacts
          ++ record { artifact_id = a.artifact_id; node_id = node_id; role = role } ∷ [];
    })

unfoldable pub register_artifact : String → Role → Artifact → Run → Except Run
unfolding add_metadata stored_matches add_run_artifact
register_artifact node_id role a r = do
  require (is_some a.sha256_digest && is_some a.size_bytes)
      (runtime_invariant "persisted artifacts require digest and size metadata")
  let table = add_metadata a r.metadata
  require (stored_matches a (find_first (λ b. b.artifact_id == a.artifact_id) table))
      (runtime_invariant "artifact metadata collision")
  ok (add_run_artifact node_id role a (record r { metadata = table }))

-- for artifact in result.artifacts: ...
unfoldable pub register_artifacts : String → Role → List Artifact → Run → Except Run
unfolding register_artifact
register_artifacts node_id role [] r = ok r
register_artifacts node_id role (a ∷ rest) r =
    register_artifact node_id role a r >>= register_artifacts node_id role rest
