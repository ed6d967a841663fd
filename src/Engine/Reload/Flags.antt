-- ===== src/Engine/Reload/Flags.antt =====
-- The reloading flags and the table of pipelines across a reload (internal/engine/reload.go).
use mathlib.Core.Logic.{if_neg}
use eventr.Common.{
  true, false, String, List, [], ◌∷◌, ◌++◌, Option, none, some, ◌≡◌, ◌≢◌, refl, ◌⊎◌, inl, inr,
  arith, ite, All, Option-cases, ◌∙◌, sym, subst,
}
use eventr.Common.Text.{string_dec, contains}
use eventr.Common.Dict.{Dict, lookup, get_or, lookup-insert, lookup-erase}
use eventr.Engine.Reload.{
  Status, running, succeeded, failed, Engine, ReloadError, in_progress, no_config_path, Result, ok,
  err, World, is_reloading, set_reloading, clear_reloading, store_task, update_task, swap_pipeline,
  settle, run_reload, begin_reload, load_each, begin_reload_all, keys, any_reloading, set_all,
}

Result-cases {ℓ} :
    {E A : Type ℓ} (r : Result E A) → ((a : A) × (r ≡ ok a)) ⊎ ((e : E) × (r ≡ err e))
Result-cases (ok a) = inl (a, refl)
Result-cases (err e) = inr (e, refl)

module _ {ℓ} {P E I : Type ℓ} (w : World P I E) where
  is_reloading-set :
      (n name : String) (e : Engine P E)
      → is_reloading n (set_reloading name e) ≡ ite (string_dec n name) true (is_reloading n e)
  unfolding set_reloading
  is_reloading-set n name e = ground (arith, lookup-insert n name true e.reloading)

  is_reloading-clear :
      (n name : String) (e : Engine P E)
      → is_reloading n (clear_reloading name e) ≡ ite (string_dec n name) false (is_reloading n e)
  unfolding clear_reloading
  is_reloading-clear n name e = ground (arith, lookup-erase n name e.reloading)

  -- A reload that is refused leaves every flag as it was.
  pub begin_reload-refused :
      (name n : String) (e : Engine P E) {e' : Engine P E} {x : ReloadError E}
      → begin_reload w name e ≡ (e', err x)
      → is_reloading n e' ≡ is_reloading n e
  unfolding begin_reload
  begin_reload-refused name n e h =
      ground (arith, is_reloading-set n name e, is_reloading-clear n name (set_reloading name e))

  -- A reload that is accepted had the flag clear, and leaves it set for this name and no other; the
  -- topology that it loaded has that name.
  pub begin_reload-accepted :
      (name n : String) (e : Engine P E) {e' : Engine P E} {ir : I}
      → begin_reload w name e ≡ (e', ok ir)
      → (is_reloading name e ≡ false)
        × (w.name_of ir ≡ name)
        × (is_reloading n e' ≡ ite (string_dec n name) true (is_reloading n e))
  unfolding begin_reload
  begin_reload-accepted name n e h = ground (arith, is_reloading-set n name e)

  update_task-keeps :
      (id : String) (status : Status) (x : Option E) (e : Engine P E)
      → ((update_task id status x e).reloading ≡ e.reloading)
        × ((update_task id status x e).pipelines ≡ e.pipelines)
  unfolding update_task store_task
  update_task-keeps id status x e = elim (Option-cases (lookup id e.tasks)) [
    | inl h ↦ (ground arith, ground arith)
    | inr (t, h) ↦ (ground arith, ground arith)
  ]

  settle-keeps :
      (id : String) (x : Option E) (e : Engine P E)
      → ((settle w id x e).reloading ≡ e.reloading) × ((settle w id x e).pipelines ≡ e.pipelines)
  unfolding settle
  settle-keeps id none e = update_task-keeps id succeeded none e
  settle-keeps id (some x) e = update_task-keeps id failed (some x) e

  swap_pipeline-keeps :
      (name : String) (ir : I) (e : Engine P E)
      → (swap_pipeline w name ir e).0.reloading ≡ e.reloading
  unfolding swap_pipeline
  swap_pipeline-keeps name ir e = ground arith

  -- The old pipeline is there and stops, and the new one is built and starts.
  abbrev pub Replaces : String → I → Engine P E → P → Type ℓ
  Replaces name ir e p =
      (old : P) × (lookup name e.pipelines ≡ some old)
      × (w.stop old ≡ none)
      × (w.build ir ≡ ok p)
      × (w.start p ≡ none)

  -- Where the old pipeline is there and stops and the new one is built and starts, swapPipeline
  -- returns nil and the new one stands in the table under the name, the rest of the table as it was;
  -- in every other case the table is as it was, and an error is returned.
  pub swap_pipeline-table :
      (name n : String) (ir : I) (e : Engine P E)
      → let r = swap_pipeline w name ir e in
        ((p : P)
          → Replaces name ir e p
          → (r.1 ≡ none)
            × (lookup n r.0.pipelines ≡ ite (string_dec n name) (some p) (lookup n e.pipelines)))
        × (¬ ((p : P) × Replaces name ir e p) → (r.1 ≢ none) × (r.0.pipelines ≡ e.pipelines))
  unfolding swap_pipeline
  swap_pipeline-table name n ir e = (
    λ p (old, h, s, b, t).
        let l = lookup-insert n name p e.pipelines in (ground arith, ground arith),
    λ other. elim (Option-cases (lookup name e.pipelines)) [
      | inl h ↦ (ground arith, ground arith)
      | inr (old, h) ↦ elim (Option-cases (w.stop old)) [
        | inr (x, s) ↦ (ground arith, ground arith)
        | inl s ↦ elim (Result-cases (w.build ir)) [
          | inr (x, b) ↦ (ground arith, ground arith)
          | inl (p, b) ↦ elim (Option-cases (w.start p)) [
            | inr (x, t) ↦ (ground arith, ground arith)
            | inl t ↦ absurd (other (p, (old, h, s, b, t)))
          ]
        ]
      ]
    ],
  )

  -- A reload task, however it ends, clears the flag of its pipeline and no other.
  pub run_reload-clears :
      (id name n : String) (ir : I) (e : Engine P E)
      → is_reloading n (run_reload w id name ir e)
        ≡ ite (string_dec n name) false (is_reloading n e)
  unfolding run_reload
  run_reload-clears id name n ir e =
      let e₁ = update_task id running none e in
      let e₂ = (swap_pipeline w name ir e₁).0 in
      let e₃ = settle w id (swap_pipeline w name ir e₁).1 e₂ in
      let same : e₃.reloading ≡ e.reloading =
        (settle-keeps id _ e₂).0
        ∙ swap_pipeline-keeps name ir e₁
        ∙ (update_task-keeps id running none e).0 in
      is_reloading-clear n name e₃ ∙ rw same

  -- A path is set and loads.
  abbrev pub Loads : Dict String → String → Type ℓ
  Loads paths n = (get_or n "" paths ≢ "") × ((ir : I) × (w.load (get_or n "" paths) ≡ ok ir))

  load_each-no_path :
      (names pre : List String) (name : String) (post : List String) (e : Engine P E)
      → All (Loads e.config_paths) pre
      → get_or name "" e.config_paths ≡ ""
      → load_each w names (pre ++ name ∷ post) e
        ≡ (clear_reloading name e, some (no_config_path name))
  unfolding load_each
  load_each-no_path names [] name post e h k = ground arith
  load_each-no_path names (n ∷ pre) name post e ((set, (ir, loaded)), h) k =
      ground (arith, load_each-no_path names pre name post e h k)

  set_all-sets :
      (m : String) (names : List String) (e : Engine P E)
      → (is_reloading m e ≡ true) ⊎ (contains names m ≡ true)
      → is_reloading m (set_all w names e) ≡ true
  unfolding set_all
  set_all-sets m [] e (inl h) = h
  set_all-sets m [] e (inr h) = cc
  set_all-sets m (n ∷ names) e h =
      set_all-sets m names (set_reloading n e) (ground (arith, is_reloading-set m n e))

  set_all-paths :
      (names : List String) (e : Engine P E) → (set_all w names e).config_paths ≡ e.config_paths
  unfolding set_all set_reloading
  set_all-paths [] e = refl
  set_all-paths (n ∷ names) e = set_all-paths names (set_reloading n e)

  begin_reload_all-no_path :
      (pre : List String) (name : String) (post : List String) (e : Engine P E)
      → keys w e.pipelines ≡ pre ++ name ∷ post
      → any_reloading w (keys w e.pipelines) e ≡ false
      → All (Loads e.config_paths) pre
      → get_or name "" e.config_paths ≡ ""
      → begin_reload_all w e
        ≡ (clear_reloading name (set_all w (keys w e.pipelines) e), some (no_config_path name))
  unfolding begin_reload_all
  begin_reload_all-no_path pre name post e k idle loads missing =
      let names = keys w e.pipelines in
      let p = set_all-paths names e in
      let step =
        load_each-no_path names pre name post (set_all w names e)
          (subst (λ q. All (Loads q) pre) (sym p) loads)
          (subst (λ q. get_or name "" q ≡ "") (sym p) missing) in
      rw idle (
        subst
          (λ ns.
            load_each w names ns (set_all w names e)
            ≡ (clear_reloading name (set_all w names e), some (no_config_path name)))
          (sym k) step)

  begin_reload-busy :
      (m path : String) (e : Engine P E)
      → lookup m e.config_paths ≡ some path
      → is_reloading m e ≡ true
      → begin_reload w m e ≡ (e, err in_progress)
  unfolding begin_reload
  begin_reload-busy m path e h busy = rw (h, begin_reload) (rw busy)

  -- Where no reload is in progress, the paths of the pipelines before `name` load and `name` has
  -- none, BeginReloadAll fails and leaves the flag of every other pipeline set: a later BeginReload
  -- of such a pipeline is refused as in progress, though no task runs.
  pub begin_reload_all-stuck :
      (pre : List String) (name : String) (post : List String) (m path : String) (e : Engine P E)
      → keys w e.pipelines ≡ pre ++ name ∷ post
      → any_reloading w (keys w e.pipelines) e ≡ false
      → All (Loads e.config_paths) pre
      → get_or name "" e.config_paths ≡ ""
      → contains (keys w e.pipelines) m ≡ true
      → m ≢ name
      → lookup m e.config_paths ≡ some path
      → let (e', x) = begin_reload_all w e in
        (x ≡ some (no_config_path name)) × (begin_reload w m e' ≡ (e', err in_progress))
  unfolding clear_reloading
  begin_reload_all-stuck pre name post m path e k idle loads missing listed other has_path =
      let names = keys w e.pipelines in
      let e₁ = set_all w names e in
      let busy : is_reloading m (clear_reloading name e₁) ≡ true =
        is_reloading-clear m name e₁ ∙ rw (if_neg _ other) (set_all-sets m names e (inr listed)) in
      let paths : lookup m e₁.config_paths ≡ some path =
        subst (λ q. lookup m q ≡ some path) (sym (set_all-paths names e)) has_path in
      rw (begin_reload_all-no_path pre name post e k idle loads missing)
        (refl, begin_reload-busy m path (clear_reloading name e₁) paths busy)
