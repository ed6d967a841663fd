-- ===== src/Eql/Program/Aliases.antt =====
-- A map that an assignment of internal/eql/eql.go makes the payload stays the map that it was.
use eventr.Common.{
  true, String, List, [], ◌∷◌, ◌<◌, ◌≤◌, Option, none, some, ◌⊎◌, inr, ◌≡◌, ◌≢◌, refl, sym, ap, ◌∙◌,
  arith, if_elim, option_elim, subst,
}
use eventr.Common.Text.{◌==◌, string_dec}
use eventr.Config.Value.{Value, nil}
use eventr.Message.{Message, ensure_writable}
use eventr.Eql.{set_path}
use eventr.Eql.Text.{has_prefix, trim_root}
use eventr.Eql.Heap.{
  Ref, Heap, read, write, alloc, Data, map_at, nil_map, other, value_of, deep_copy, read-write_same,
  read-alloc,
}
use eventr.Eql.Program.{
  assign, References, EqlError, Context, bindings, make_writable, set_data, ensure_map,
  assign_payload, assign_below, execute_assign, assign_result, unless_failed, execute, eval_mapping,
}

module _ {ℓ κ} {Bytes : Type ℓ} {Handler : Type κ} where
  -- What EnsureWritable leaves of a context: it may make a new map.
  record Kept (c c' : Context Bytes Handler) : Type 0 where
    payload : c'.payload ≡ c.payload
    cells : (a : Ref) → a < c.heap.next → read a c'.heap ≡ read a c.heap
    grown : c.heap.next ≤ c'.heap.next

  Kept-copy :
      (c : Context Bytes Handler) (m : Message Bytes Data Handler) (d : Data)
      → Kept c (record c { msg = some m; heap = (deep_copy d c.heap).1 })
  unfolding deep_copy alloc write
  Kept-copy c m (map_at b) = record {
    payload = refl;
    cells = λ a l. read-alloc (read b c.heap) c.heap a l;
    grown = omega arith;
  }
  Kept-copy c m nil_map = record {
    payload = refl;
    cells = λ a l. read-alloc nil c.heap a l;
    grown = omega arith;
  }
  Kept-copy c m (other v) = record { payload = refl; cells = λ a l. refl; grown = omega arith }

  Kept-same :
      (c : Context Bytes Handler) (m : Option (Message Bytes Data Handler))
      → Kept c (record c { msg = m })
  Kept-same c m = record { payload = refl; cells = λ a l. refl; grown = omega arith }

  make_writable-Kept : (c : Context Bytes Handler) → Kept c (make_writable c)
  unfolding make_writable ensure_writable
  make_writable-Kept c =
      option_elim (Kept c) c.msg _ _ (λ _. Kept-same c c.msg)
        (λ m _.
          option_elim
            (λ (r : Message Bytes Data Handler × Heap).
              Kept c (record c { msg = some r.0; heap = r.1 }))
            m.parsed_data _ _ (λ _. Kept-same c (some _))
            (λ d _.
              if_elim
                (λ (r : Message Bytes Data Handler × Heap).
                  Kept c (record c { msg = some r.0; heap = r.1 }))
                m.read_only _ _ (λ _. Kept-copy c _ d) (λ _. Kept-same c (some _))))

  set_data-heap : (r : Option Ref) (c : Context Bytes Handler) → (set_data r c).heap ≡ c.heap
  unfolding set_data
  set_data-heap r c = ground arith

module _ {ℓ κ μ ν} {Bytes : Type ℓ} {Handler : Type κ} {Expr : Type μ} {E : Type ν}
    (evaluate : Expr → References → E ⊎ Data) (split : String → List String) where
  assign_payload-reference :
      (a : Ref) (c : Context Bytes Handler)
      → let r = execute_assign evaluate split "payload" (map_at a) c in
        (r.0.payload ≡ some a) × (r.1 ≡ none) × (r.0.heap ≡ (make_writable c).heap)
  unfolding execute_assign assign_payload has_prefix string_dec
  assign_payload-reference a c = (refl, refl, set_data-heap (some a) (make_writable c))

  assign_below-writes :
      (path : String) (v : Value) (a : Ref) (c : Context Bytes Handler)
      → c.payload ≡ some a
      → let r = assign_below evaluate split path v c in
        (r.0.payload ≡ some a) × (read a r.0.heap ≡ set_path split (read a c.heap) path v)
  unfolding assign_below ensure_map
  assign_below-writes path v a c p =
      let q : ensure_map c.payload c.heap ≡ (a, c.heap) = ap (λ o. ensure_map o c.heap) p in
      let written = λ (r : Ref × Heap). write r.0 (set_path split (read r.0 r.1) path v) r.1 in
      (
        ap (λ r. some r.0) q,
        ap (read a) (
              set_data-heap (some (ensure_map c.payload c.heap).0)
                (record c { heap = written (ensure_map c.payload c.heap) }))
            ∙ ap (λ r. read a (written r)) q
            ∙ read-write_same a _ c.heap,
      )

  abbrev Writes : String → Value → Ref → Heap → Context Bytes Handler × Option (EqlError E) → Type 0
  Writes path v a heap r =
      (r.0.payload ≡ some a)
      × (read a r.0.heap ≡ set_path split (read a heap) (trim_root path "payload") v)

  -- An assignment below the payload writes to the map of the payload.
  execute_assign-Writes :
      (path : String) (v : Value) (a : Ref) (c : Context Bytes Handler)
      → c.payload ≡ some a
      → a < c.heap.next
      → has_prefix "payload" path ≡ true
      → path ≢ "payload"
      → Writes path v a c.heap (execute_assign evaluate split path (other v) c)
  unfolding execute_assign value_of
  execute_assign-Writes path v a c p l h ne =
      let k = make_writable-Kept c in
      if_elim (Writes path v a c.heap) (has_prefix "payload" path) _ _
        (λ _.
          if_elim (Writes path v a c.heap) (path == "payload") _ _ (λ e. absurd (ground arith))
            (λ _.
              let (same, written) =
                assign_below-writes (trim_root path "payload") v a (make_writable c)
                  (k.payload ∙ p) in
              (
                same,
                written ∙ ap (λ x. set_path split x (trim_root path "payload") v) (k.cells a l),
              )))
        (λ e. absurd (ground arith))

  execute-assign :
      (path : String) (expr : Expr) (d : Data) (c : Context Bytes Handler)
      → evaluate expr (bindings c) ≡ inr d
      → execute evaluate split (assign path expr) c ≡ execute_assign evaluate split path d c
  unfolding execute assign_result
  execute-assign path expr d c e = ap (assign_result evaluate split path c) e

  goes_on :
      (next : Context Bytes Handler → Context Bytes Handler × Option (EqlError E))
      (r : Context Bytes Handler × Option (EqlError E))
      → r.1 ≡ none
      → unless_failed evaluate split next r ≡ next r.0
  goes_on next (c, none) h = refl
  goes_on next (c, some e) h = cc

  ends_there :
      (r : Context Bytes Handler × Option (EqlError E))
      → (unless_failed evaluate split (eval_mapping evaluate split []) r).0 ≡ r.0
  unfolding eval_mapping
  ends_there (c, none) = refl
  ends_there (c, some e) = refl

  -- Where an expression gives a map that the heap has, as it gives the input, and a constant is
  -- assigned next below the payload: after the two statements the payload is that very map, and the
  -- write landed in it, so that whoever holds the map sees the change.
  pub eval_mapping-aliases :
      (whole part : Expr) (path : String) (v : Value) (a : Ref) (c : Context Bytes Handler)
      → evaluate whole (bindings c) ≡ inr (map_at a)
      → ((b : References) → evaluate part b ≡ inr (other v))
      → a < c.heap.next
      → has_prefix "payload" path ≡ true
      → path ≢ "payload"
      → let r = eval_mapping evaluate split (assign "payload" whole ∷ assign path part ∷ []) c in
        (r.0.payload ≡ some a)
        × (read a r.0.heap ≡ set_path split (read a c.heap) (trim_root path "payload") v)
  unfolding eval_mapping
  eval_mapping-aliases whole part path v a c e₁ e₂ l h ne =
      let k = make_writable-Kept c in
      let c₁ = (execute_assign evaluate split "payload" (map_at a) c).0 in
      let (p, done, heap) = assign_payload-reference a c in
      let (same, written) =
        execute_assign-Writes path v a c₁ p
          (subst (λ x. a < x.next) (sym heap) (omega (arith, k.grown))) h ne in
      let next = eval_mapping evaluate split (assign path part ∷ []) in
      let r₂ = execute_assign evaluate split path (other v) c₁ in
      let all : (eval_mapping evaluate split (assign "payload" whole ∷ assign path part ∷ []) c).0
          ≡ r₂.0 =
        ap (λ r. (unless_failed evaluate split next r).0)
          (execute-assign "payload" whole (map_at a) c e₁)
        ∙ ap (λ r. r.0) (goes_on next (execute_assign evaluate split "payload" (map_at a) c) done)
        ∙ ap (λ r. (unless_failed evaluate split (eval_mapping evaluate split []) r).0)
            (execute-assign path part (other v) c₁ (e₂ (bindings c₁)))
        ∙ ends_there r₂ in
      (
        ap (λ x. x.payload) all ∙ same,
        ap (λ x. read a x.heap) all
            ∙ written
            ∙ ap (λ m. set_path split m (trim_root path "payload") v)
                (ap (read a) heap ∙ k.cells a l),
      )
