-- ===== src/Tests/Reload.antt =====
-- Reloads of two pipelines, the second without a configuration path.
use eventr.Common.{false, String, [], ◌∷◌, ◌≡◌, ◌≢◌, refl, none, some, ite}
use eventr.Common.Text.{string_dec}
use eventr.Common.Dict.{lookup}
use eventr.Engine.Reload.{
  Engine, no_config_path, in_progress, ok, err, World, is_reloading, set_reloading, swap_pipeline,
  run_reload, begin_reload, begin_reload_all, any_reloading, run_reload_all,
}
use eventr.Engine.Reload.All.{run_reload_all-without, without}
use eventr.Tests.Samples.{ne_of_test}
use eventr.Engine.Reload.Flags.{
  Replaces, swap_pipeline-table, run_reload-clears, begin_reload_all-stuck,
}

-- A pipeline and its topology stand as its name, which is also what its path holds.
abbrev world : World String String String
world = record {
  load = λ path. ok path;
  name_of = λ ir. ir;
  stop = λ p. none;
  build = λ ir. ok ir;
  start = λ p. none;
  unknown_pipeline = λ n. n;
}

abbrev engine : Engine String String
engine = record {
  pipelines = ("a", "a") ∷ ("b", "b") ∷ [];
  config_paths = ("a", "a") ∷ [];
  reloading = [];
  tasks = [];
}

swap_pipeline-table_example :
    let r = swap_pipeline world "a" "a2" engine in
    ((p : String)
      → Replaces world "a" "a2" engine p
      → (r.1 ≡ none)
        × (lookup "a" r.0.pipelines
            ≡ ite (string_dec "a" "a") (some p) (lookup "a" engine.pipelines)))
    × (¬ ((p : String) × Replaces world "a" "a2" engine p)
        → (r.1 ≢ none) × (r.0.pipelines ≡ engine.pipelines))
swap_pipeline-table_example = swap_pipeline-table world "a" "a" "a2" engine

-- The first pipeline is replaced.
replaced : Replaces world "a" "a2" engine "a2"
unfolding lookup string_dec
replaced = ("a", refl, refl, refl, refl)

run_reload-clears_example :
    is_reloading "a" (run_reload world "task" "a" "a" (set_reloading "a" engine))
    ≡ ite (string_dec "a" "a") false (is_reloading "a" (set_reloading "a" engine))
run_reload-clears_example = run_reload-clears world "task" "a" "a" "a" (set_reloading "a" engine)

begin_reload_all-stuck_example :
    let (e', x) = begin_reload_all world engine in
    (x ≡ some (no_config_path "b")) × (begin_reload world "a" e' ≡ (e', err in_progress))
unfolding lookup string_dec any_reloading
begin_reload_all-stuck_example =
    begin_reload_all-stuck world ("a" ∷ []) "b" [] "a" "a" engine refl refl
      ((ne_of_test "a" "" refl, ("a", refl)), tt) refl refl (ne_of_test "a" "b" refl) refl

run_reload_all-without_example :
    is_reloading "a" (run_reload_all world "task" ("a" ∷ []) (set_reloading "a" engine))
    ≡ without world ("a" ∷ []) "a" (is_reloading "a" (set_reloading "a" engine))
unfolding set_reloading string_dec lookup
run_reload_all-without_example =
    run_reload_all-without world "task" ("a" ∷ []) (set_reloading "a" engine) "a"
      ((ne_of_test "a" "" refl, ("a", refl)), tt)
