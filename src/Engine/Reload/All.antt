-- ===== src/Engine/Reload/All.antt =====
-- The flags across a reload of all pipelines (runReloadAll of internal/engine/reload.go).
use eventr.Common.{
  Bool, false, String, List, [], ◌∷◌, Option, none, some, ◌≡◌, refl, arith, ite, if◌then◌else◌, All,
  ap, ◌∙◌, sym, subst, Option-cases, inl, inr,
}
use eventr.Common.Text.{string_dec, contains}
use eventr.Common.Dict.{lookup, get_or, lookup-erase}
use eventr.Engine.Reload.{
  Engine, ok, World, Status, running, succeeded, failed, is_reloading, clear_reloading, update_task,
  store_task, swap_pipeline, settle, reload_each, run_reload_all, first_error,
}
use eventr.Engine.Reload.Flags.{Loads}

module _ {ℓ} {P E I : Type ℓ} (w : World P I E) where
  swap_pipeline-same :
      (name : String) (ir : I) (e : Engine P E)
      → ((swap_pipeline w name ir e).0.reloading ≡ e.reloading)
        × ((swap_pipeline w name ir e).0.config_paths ≡ e.config_paths)
  unfolding swap_pipeline
  swap_pipeline-same name ir e = (ground arith, ground arith)

  -- One turn of the loop, where the path loads.
  turn : String → I → Engine P E → Engine P E
  turn n ir e = clear_reloading n (swap_pipeline w n ir e).0

  reload_each-turn :
      (n : String) (rest : List String) (first : Option E) (e : Engine P E) (ir : I)
      → w.load (get_or n "" e.config_paths) ≡ ok ir
      → reload_each w (n ∷ rest) first e
        ≡ reload_each w rest (first_error w first (swap_pipeline w n ir e).1) (turn n ir e)
  unfolding reload_each turn
  reload_each-turn n rest first e ir h = rw (h, reload_each) refl

  turn-same :
      (n m : String) (ir : I) (e : Engine P E)
      → ((turn n ir e).config_paths ≡ e.config_paths)
        × (is_reloading m (turn n ir e) ≡ ite (string_dec m n) false (is_reloading m e))
  unfolding turn clear_reloading
  turn-same n m ir e =
      let (flags, paths) = swap_pipeline-same n ir e in
      (
        paths,
        ground (arith, lookup-erase m n (swap_pipeline w n ir e).0.reloading)
            ∙ ap (λ r. ite (string_dec m n) false (get_or m false r)) flags,
      )

  abbrev pub without : List String → String → Bool → Bool
  without names m was = if contains names m then false else was

  reload_each-without :
      (names : List String) (first : Option E) (e : Engine P E) (m : String)
      → All (Loads w e.config_paths) names
      → is_reloading m (reload_each w names first e).0 ≡ without names m (is_reloading m e)
  unfolding reload_each
  reload_each-without [] first e m h = refl
  reload_each-without (n ∷ rest) first e m ((_, (ir, l)), hs) =
      let (paths, flag) = turn-same n m ir e in
      let more = subst (λ p. All (Loads w p) rest) (sym paths) hs in
      let ih =
        reload_each-without rest (first_error w first (swap_pipeline w n ir e).1) (turn n ir e) m
          more in
      ap (λ r. is_reloading m r.0) (reload_each-turn n rest first e ir l)
      ∙ ih
      ∙ ap (without rest m) flag
      ∙ ground arith

  update_task-same :
      (id : String) (status : Status) (x : Option E) (e : Engine P E)
      → ((update_task id status x e).reloading ≡ e.reloading)
        × ((update_task id status x e).config_paths ≡ e.config_paths)
  unfolding update_task store_task
  update_task-same id status x e = elim (Option-cases (lookup id e.tasks)) [
    | inl h ↦ (ground arith, ground arith)
    | inr (t, h) ↦ (ground arith, ground arith)
  ]

  settle-same :
      (id : String) (x : Option E) (e : Engine P E) → (settle w id x e).reloading ≡ e.reloading
  unfolding settle
  settle-same id none e = (update_task-same id succeeded none e).0
  settle-same id (some x) e = (update_task-same id failed (some x) e).0

  -- Where the paths of all pipelines to reload still load, runReloadAll clears the flag of each of
  -- them, whatever became of their reloads, and leaves every other flag.
  pub run_reload_all-without :
      (id : String) (names : List String) (e : Engine P E) (m : String)
      → All (Loads w e.config_paths) names
      → is_reloading m (run_reload_all w id names e) ≡ without names m (is_reloading m e)
  unfolding run_reload_all
  run_reload_all-without id names e m h =
      let e₁ = update_task id running none e in
      let (flags, paths) = update_task-same id running none e in
      let r = reload_each w names none e₁ in
      ap (get_or m false) (settle-same id r.1 r.0)
      ∙ reload_each-without names none e₁ m (subst (λ p. All (Loads w p) names) (sym paths) h)
      ∙ ap (λ f. without names m (get_or m false f)) flags
