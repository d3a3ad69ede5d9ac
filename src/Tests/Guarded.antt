-- ===== src/Tests/Guarded.antt =====
-- The deduplication service under a breaker that is open, and under one that is closed.
use yeti.Base.{◌≡◌, refl, true, false, some, [], ◌∷◌}
use yeti.Model.Value.{lookup, insert}
use yeti.Errors.Result.{ok, is_err}
use yeti.Breaker.{Phase, guarded, execute_with_context}
use yeti.Dedup.Hasher.{compute_hash, hash_text, hash_input}
use yeti.Dedup.Data.{build_message_data}
use yeti.Dedup.Service.{process, repo_set_nx}
use yeti.Dedup.Guarded.{
  guarded_set_nx, guarded_process, guarded_process_open, guarded_process_duplicate,
}
use yeti.Tests.Fixtures.{live, order}
use yeti.Tests.Dedup.{marks, memory, service, has, set_nx}
use yeti.Tests.Providers.{floats, fixed, fixed-Behaves}

guarded_process_open_example :
    let (answer, (st, b)) =
      guarded_process floats fixed memory marks service live 3 order ([], some Phase.open_phase) in
    (st ≡ []) × (is_err answer ≡ true)
unfolding compute_hash hash_text hash_input build_message_data lookup insert
guarded_process_open_example =
    guarded_process_open floats fixed memory marks fixed-Behaves service live 3 order []
      Phase.open_phase {hash = "sann|"} refl refl refl refl

guarded_process_duplicate_example :
    process marks memory service live 3 order ("dedup:sann|" ∷ []) ≡ (ok false, "dedup:sann|" ∷ [])
unfolding compute_hash hash_text hash_input build_message_data lookup insert guarded_set_nx guarded
    execute_with_context repo_set_nx set_nx has
guarded_process_duplicate_example =
    guarded_process_duplicate floats fixed memory marks fixed-Behaves service live 3 order
      ("dedup:sann|" ∷ []) ("dedup:sann|" ∷ []) Phase.closed (some Phase.closed) refl
