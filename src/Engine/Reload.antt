-- ===== src/Engine/Reload.antt =====
-- The engine's table of pipelines and the reload tasks: internal/engine/engine.go (Load, Pipeline,
-- PipelineCount) and internal/engine/reload.go. The mutexes make each critical section one step; a
-- pipeline value stands for what the reload reads of it. What the tasks call outside this package
-- is a parameter: `load` is loadIRFromPath, `stop` is old.Stop under the drain timeout, `build` is
-- NewPipeline and `start` its Start.
pub mod Flags
pub mod All
use eventr.Common.{
  Bool, true, false, String, List, [], ◌∷◌, ℕ, Option, none, some, if◌then◌else◌, not, length,
}
use eventr.Common.Text.{◌==◌}
use eventr.Common.Dict.{Dict, lookup, insert, erase, has, get_or}

pub data Status : Type 0 where
  pending running succeeded failed : Status

-- A ReloadTask; the times are left out but for whether FinishedAt is set.
pub record Task {ℓ} (E : Type ℓ) : Type ℓ where
  pub pipeline : String
  pub status : Status
  pub error : Option E
  pub is_finished : Bool

pub record Engine {ℓ} (P E : Type ℓ) : Type ℓ where
  pub pipelines : Dict P
  pub config_paths : Dict String
  pub reloading : Dict Bool
  pub tasks : Dict (Task E)

pub data ReloadError {ℓ} (E : Type ℓ) : Type ℓ where
  not_found : String → ReloadError E
  in_progress : ReloadError E
  load_failed : E → ReloadError E
  other_name : String → ReloadError E
  no_config_path : String → ReloadError E

pub data Result {ℓ} (E A : Type ℓ) : Type ℓ where
  ok : A → Result E A
  err : E → Result E A

-- The parts of the environment that a reload calls.
pub record World {ℓ} (P I E : Type ℓ) : Type ℓ where
  pub load : String → Result E I
  pub name_of : I → String
  pub stop : P → Option E
  pub build : I → Result E P
  pub start : P → Option E
  pub unknown_pipeline : String → E

-- Whether FinishedAt is set after an update to this status.
abbrev pub ends : Status → Bool → Bool
ends pending was = was
ends running was = was
ends succeeded was = true
ends failed was = true

module _ {ℓ} {P E : Type ℓ} where
  -- e.reloading[name], a missing name being false
  abbrev pub is_reloading : String → Engine P E → Bool
  is_reloading name e = get_or name false e.reloading

  unfoldable pub set_reloading : String → Engine P E → Engine P E
  set_reloading name e = record e { reloading = insert name true e.reloading }

  unfoldable pub clear_reloading : String → Engine P E → Engine P E
  clear_reloading name e = record e { reloading = erase name e.reloading }

  unfoldable pub store_task : String → Task E → Engine P E → Engine P E
  store_task id task e = record e { tasks = insert id task e.tasks }

  -- updateTask: nothing for an unknown id.
  unfoldable pub update_task : String → Status → Option E → Engine P E → Engine P E
  update_task id status error e = elim (lookup id e.tasks) [
    | none ↦ e
    | some t ↦
        store_task id
          (record t { status = status; error = error; is_finished = ends status t.is_finished }) e
  ]

  module _ {I : Type ℓ} (w : World P I E) where
    open w use {load, name_of, stop, build, start, unknown_pipeline}

    -- Stop the old pipeline, build and start the new one, and put it in the table.
    replace : String → I → P → Engine P E → Engine P E × Option E
    replace name ir old e = elim (stop old) [
      | some x ↦ (e, some x)
      | none ↦ elim (build ir) [
        | err x ↦ (e, some x)
        | ok p ↦ elim (start p) [
          | some x ↦ (e, some x)
          | none ↦ (record e { pipelines = insert name p e.pipelines }, none)
        ]
      ]
    ]

    unfoldable pub swap_pipeline : String → I → Engine P E → Engine P E × Option E
    unfolding replace
    swap_pipeline name ir e = elim (lookup name e.pipelines) [
      | none ↦ (e, some (unknown_pipeline name))
      | some old ↦ replace name ir old e
    ]

    -- `if err != nil { updateTask(failed) } else { updateTask(succeeded) }`
    unfoldable pub settle : String → Option E → Engine P E → Engine P E
    settle id none e = update_task id succeeded none e
    settle id (some x) e = update_task id failed (some x) e

    -- runReload: the flag is cleared as the function returns.
    unfoldable pub run_reload : String → String → I → Engine P E → Engine P E
    run_reload id name ir e =
        let (e', x) = swap_pipeline name ir (update_task id running none e) in
        clear_reloading name (settle id x e')

    -- The checks of BeginReload before the task is made: the engine with the flag set, and the
    -- topology to run, or the engine as it is left with the error.
    abbrev checked : String → I → Engine P E → Engine P E × Result (ReloadError E) I
    checked name ir e =
        if name_of ir == name
        then (e, ok ir)
        else (clear_reloading name e, err (other_name (name_of ir)))

    abbrev loaded : String → Result E I → Engine P E → Engine P E × Result (ReloadError E) I
    loaded name (err x) e = (clear_reloading name e, err (load_failed x))
    loaded name (ok ir) e = checked name ir e

    unfoldable pub begin_reload : String → Engine P E → Engine P E × Result (ReloadError E) I
    begin_reload name e = elim (lookup name e.config_paths) [
      | none ↦ (e, err (not_found name))
      | some path ↦
          if is_reloading name e
          then (e, err in_progress)
          else loaded name (load path) (set_reloading name e)
    ]

    -- The loop of BeginReloadAll before the task is made: a missing path clears one flag, a path that
    -- does not load clears them all.
    clear_all : List String → Engine P E → Engine P E
    clear_all [] e = e
    clear_all (n ∷ names) e = clear_all names (clear_reloading n e)

    unfoldable pub load_each :
        List String → List String → Engine P E → Engine P E × Option (ReloadError E)
    unfolding clear_all
    load_each names [] e = (e, none)
    load_each names (n ∷ rest) e =
        let path = get_or n "" e.config_paths in
        let more = load_each names rest e in
        if path == ""
        then (clear_reloading n e, some (no_config_path n))
        else elim (load path) [ ok ir ↦ more | err x ↦ (clear_all names e, some (load_failed x)) ]

    unfoldable pub set_all : List String → Engine P E → Engine P E
    set_all [] e = e
    set_all (n ∷ names) e = set_all names (set_reloading n e)

    unfoldable pub any_reloading : List String → Engine P E → Bool
    any_reloading [] e = false
    any_reloading (n ∷ names) e =
        let more = any_reloading names e in if is_reloading n e then true else more

    abbrev pub keys : Dict P → List String
    keys [] = []
    keys ((k, p) ∷ rest) = k ∷ keys rest

    -- The names to reload, with the flags set, or the engine as it is left with the error.
    unfoldable pub begin_reload_all : Engine P E → Engine P E × Option (ReloadError E)
    unfolding load_each set_all any_reloading
    begin_reload_all e =
        let names = keys e.pipelines in
        if any_reloading names e
        then (e, some in_progress)
        else load_each names names (set_all names e)

    abbrev pub first_error : Option E → Option E → Option E
    first_error none new = new
    first_error (some x) new = some x

    -- The loop of runReloadAll: a path that does not load ends it, with the flags as they are.
    unfoldable pub reload_each : List String → Option E → Engine P E → Engine P E × Option E
    reload_each [] first e = (e, first)
    reload_each (n ∷ rest) first e = elim (load (get_or n "" e.config_paths)) [
      | err x ↦ (e, some x)
      | ok ir ↦
          let (e', x) = swap_pipeline n ir e in
          reload_each rest (first_error first x) (clear_reloading n e')
    ]

    unfoldable pub run_reload_all : String → List String → Engine P E → Engine P E
    unfolding reload_each
    run_reload_all id names e =
        let (e', x) = reload_each names none (update_task id running none e) in settle id x e'
