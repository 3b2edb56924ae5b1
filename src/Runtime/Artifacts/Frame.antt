-- ===== src/Runtime/Artifacts/Frame.antt =====
-- The tables that _register_artifact of engine.py writes.
use graph_engineering.Prelude.{String, List, [], ◌∷◌, ◌≡◌, arith, ok, >>=-eq-ok}
use graph_engineering.Models.Common.{Artifact}
use graph_engineering.Runtime.Rows.{Role}
use graph_engineering.Runtime.State.{Run}
use graph_engineering.Runtime.Artifacts.{register_artifact, register_artifacts}

-- `r'` is `r` but for the artifact tables and the outbox.
abbrev pub Framed : Run → Run → Type 0
Framed r r' = r' ≡ record r { artifacts = r'.artifacts; metadata = r'.metadata; outbox = r'.outbox }

pub register_artifact-Framed :
    (node_id : String) (role : Role) (a : Artifact) (r r' : Run)
    → register_artifact node_id role a r ≡ ok r'
    → Framed r r'
unfolding register_artifact
register_artifact-Framed node_id role a r r' e = ground arith

Framed-trans : (r s t : Run) → Framed r s → Framed s t → Framed r t
Framed-trans r s t p q = cc

pub register_artifacts-Framed :
    (node_id : String) (role : Role) (as' : List Artifact) (r r' : Run)
    → register_artifacts node_id role as' r ≡ ok r'
    → Framed r r'
unfolding register_artifacts
register_artifacts-Framed node_id role [] r r' e = ground arith
register_artifacts-Framed node_id role (a ∷ rest) r r' e =
    let (s, p, q) =
      >>=-eq-ok (register_artifact node_id role a r) (register_artifacts node_id role rest) e in
    Framed-trans r s r' (register_artifact-Framed node_id role a r s p)
      (register_artifacts-Framed node_id role rest s r' q)
