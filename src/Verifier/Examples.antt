-- ===== src/Verifier/Examples.antt =====
-- A revision of a verifier from its staging to its freeze.
use graph_engineering.Prelude.{
  String, true, Option, none, some, [], ◌∷◌, ◌≡◌, refl, Except, ok, find_first, any,
}
use graph_engineering.Verifier.Lifecycle.{
  Lifecycle, Hashes, Manifest, RevisionRow, BindingRow, Tables, Digests, Evidence, hashes,
  find_revision, stage, record_evidence, freeze, verify_frozen,
}
use graph_engineering.Verifier.History.{
  Calls, here, next, stages, records, freezes, Later, revision_stays,
}
use graph_engineering.Verifier.Earned.{evidenced, frozen_has_evidence}
use graph_engineering.Verifier.Bound.{verify_frozen_returns}

abbrev digests : Digests
digests = record { sha256 = λ text. text; hash_path = λ path. ok path }

abbrev manifest : Manifest
manifest = record {
  verifier_id = "v";
  revision = 1;
  verifier_type = "builtin/command";
  document = "{}";
}

abbrev empty : Tables
empty = record {
  revisions = [];
  evidence = [];
  bindings = [];
  contracts =
      record {
        contract_id = "c";
        revision = 1;
        verifiers = record { verifier_id = "v"; verifier_type = "builtin/command" } ∷ [];
      }
      ∷ [];
  events = [];
}

abbrev tables_of {ℓ} : {A : Type ℓ} → Except (A × Tables) → Tables
tables_of (ok (a, t)) = t
tables_of _ = empty

abbrev passing : Evidence
passing = record { passed = true; document = "{}" }

abbrev staged : Tables
staged = tables_of (stage digests manifest "src" "tests" none empty)

abbrev validated : Tables
validated = tables_of (record_evidence "v" 1 Lifecycle.validated passing none staged)

abbrev tested : Tables
tested = tables_of (record_evidence "v" 1 Lifecycle.tested passing none validated)

abbrev rehearsed : Tables
rehearsed = tables_of (record_evidence "v" 1 Lifecycle.dry_run passing none tested)

abbrev frozen : Tables
frozen = tables_of (freeze "v" 1 "c" 1 "m" rehearsed)

abbrev digest : Hashes
digest = record {
  manifest_sha256 = "{}";
  source_sha256 = "src";
  tests_sha256 = "tests";
  fixtures_sha256 = none;
}

abbrev row : Lifecycle → Option String → RevisionRow
row lifecycle message = record {
  verifier_id = "v";
  revision = 1;
  manifest = manifest;
  hashes = digest;
  source_path = "src";
  tests_path = "tests";
  fixtures_path = none;
  lifecycle = lifecycle;
  confirmation_message_id = message;
}

path : Calls empty frozen
unfolding stage record_evidence freeze find_first any
path =
    next
      (next
        (next
          (next (next here (stages digests manifest "src" "tests" none digest refl))
            (records "v" 1 Lifecycle.validated passing none refl))
          (records "v" 1 Lifecycle.tested passing none refl))
        (records "v" 1 Lifecycle.dry_run passing none refl))
      (freezes "v" 1 "c" 1 "m" digest refl)

last_call : Calls rehearsed frozen
unfolding stage record_evidence freeze find_first any
last_call = next here (freezes "v" 1 "c" 1 "m" digest refl)

revision_stays_example :
    (row' : RevisionRow) × (find_revision "v" 1 frozen ≡ some row')
    × Later (row Lifecycle.dry_run none) row'
unfolding stage record_evidence freeze find_first any
revision_stays_example =
    revision_stays rehearsed frozen "v" 1 (row Lifecycle.dry_run none) refl last_call

frozen_has_evidence_example :
    (evidenced frozen.evidence "v" 1 Lifecycle.validated ≡ true)
    × (evidenced frozen.evidence "v" 1 Lifecycle.tested ≡ true)
    × (evidenced frozen.evidence "v" 1 Lifecycle.dry_run ≡ true)
unfolding stage record_evidence freeze find_first any
frozen_has_evidence_example =
    frozen_has_evidence empty frozen "v" 1 (row Lifecycle.frozen (some "m")) refl path refl refl

abbrev binding : BindingRow
binding = record {
  contract_id = "c";
  contract_revision = 1;
  verifier_id = "v";
  verifier_revision = 1;
  hashes = digest;
}

verify_frozen_returns_example :
    (digest ≡ binding.hashes)
    × ((row' : RevisionRow) × (find_revision "v" 1 frozen ≡ some row')
        × (hashes digests row'.manifest row'.source_path row'.tests_path row'.fixtures_path
            ≡ ok digest))
unfolding stage record_evidence freeze verify_frozen find_first any
verify_frozen_returns_example =
    verify_frozen_returns digests empty frozen binding [] [] digest refl refl path refl refl
