-- ===== src/Eql/Deletes.antt =====
-- What delPath (internal/eql/eql.go) removes, read along paths.
use eventr.Common.{
  String, List, [], ◌∷◌, none, some, ◌≡◌, ◌≢◌, refl, ◌⊎◌, inl, inr, arith, ap, ◌∙◌, sym,
  Option-cases,
}
use eventr.Config.Value.{Fields, object, at, put, remove, as_object, find-remove}
use eventr.Eql.{del_parts, split_path, del_path}
use eventr.Eql.Paths.{within, get_parts, Apart, get_parts-below, get_parts-put_other}

-- delPath below a key: nothing where the key holds no map, and else a delete in that map.
del_parts-cases :
    (p q : String) (ps : List String) (m : Fields)
    → (as_object (at p m) ≡ none) × (del_parts (p ∷ q ∷ ps) m ≡ m)
      ⊎ (next : Fields) × (as_object (at p m) ≡ some next)
        × (del_parts (p ∷ q ∷ ps) m ≡ put p (object (del_parts (q ∷ ps) next)) m)
unfolding del_parts
del_parts-cases p q ps m = elim (Option-cases (as_object (at p m))) [
  | inl e ↦ inl (e, ground arith)
  | inr (next, e) ↦ inr (next, e, ground arith)
]

del_parts-get :
    (p : String) (ps : List String) (m : Fields) → get_parts (p ∷ ps) (del_parts (p ∷ ps) m) ≡ none
unfolding get_parts del_parts
del_parts-get p [] m = ground (arith, find-remove p p m)
del_parts-get p (q ∷ ps) m = elim (del_parts-cases p q ps m) [
  | inl (e, f) ↦ ap (get_parts (p ∷ q ∷ ps)) f ∙ ap (within (get_parts (q ∷ ps))) e
  | inr (next, e, f) ↦
      ap (get_parts (p ∷ q ∷ ps)) f
      ∙ get_parts-below p p ps (del_parts (q ∷ ps) next) m refl q
      ∙ del_parts-get q ps next
]

remove-other :
    (p q : String) (ps : List String) (m : Fields)
    → p ≢ q
    → get_parts (p ∷ ps) (remove q m) ≡ get_parts (p ∷ ps) m
unfolding get_parts at
remove-other p q [] m e = ground (arith, find-remove p q m)
remove-other p q (r ∷ ps) m e =
    let same : at p (remove q m) ≡ at p m = ground (arith, find-remove p q m) in
    ap (λ x. within (get_parts (r ∷ ps)) (as_object x)) same

del_parts-Apart :
    (ps qs : List String) (m : Fields)
    → Apart ps qs
    → get_parts ps (del_parts qs m) ≡ get_parts ps m
unfolding del_parts get_parts
del_parts-Apart [] qs m h = absurd h
del_parts-Apart (p ∷ ps) [] m h = absurd h
del_parts-Apart (p ∷ ps) (q ∷ []) m (inl e) = remove-other p q ps m e
del_parts-Apart (p ∷ ps) (q ∷ s ∷ qs) m (inl e) = elim (del_parts-cases q s qs m) [
  | inl (_, f) ↦ ap (get_parts (p ∷ ps)) f
  | inr (next, _, f) ↦ ap (get_parts (p ∷ ps)) f ∙ get_parts-put_other p q ps _ m e
]
del_parts-Apart (p ∷ []) (q ∷ qs) m (inr (e, h)) = absurd h
del_parts-Apart (p ∷ r ∷ ps) (q ∷ []) m (inr (e, h)) = absurd h
del_parts-Apart (p ∷ r ∷ ps) (q ∷ s ∷ qs) m (inr (e, h)) = elim (del_parts-cases q s qs m) [
  | inl (_, f) ↦ ap (get_parts (p ∷ r ∷ ps)) f
  | inr (next, g, f) ↦
      ap (get_parts (p ∷ r ∷ ps)) f
      ∙ get_parts-below p q ps (del_parts (s ∷ qs) next) m e r
      ∙ del_parts-Apart (r ∷ ps) (s ∷ qs) next h
      ∙ ap (within (get_parts (r ∷ ps))) (sym g)
      ∙ ap (λ x. within (get_parts (r ∷ ps)) (as_object (at x m))) (sym e)
]

del_path-parts :
    (split : String → List String) (root : Fields) (path p : String) (ps : List String)
    → path ≢ ""
    → split path ≡ p ∷ ps
    → del_path split root path ≡ del_parts (p ∷ ps) root
unfolding del_path split_path
del_path-parts split root path p ps h e =
    let full : del_path split root path ≡ del_parts (split path) root = ground arith in
    full ∙ ap (λ x. del_parts x root) e

-- After delPath at a path that is not empty, reading along its parts gives nothing, and reading along
-- any parts that part from them at some key gives what it gave before.
pub del_path-get :
    (split : String → List String) (root : Fields) (path p : String) (ps : List String)
    → path ≢ ""
    → split path ≡ p ∷ ps
    → (get_parts (p ∷ ps) (del_path split root path) ≡ none)
      × ((qs : List String)
          → Apart qs (p ∷ ps)
          → get_parts qs (del_path split root path) ≡ get_parts qs root)
del_path-get split root path p ps h e =
    let now = del_path-parts split root path p ps h e in
    (
      ap (get_parts (p ∷ ps)) now ∙ del_parts-get p ps root,
      λ qs apart. ap (get_parts qs) now ∙ del_parts-Apart qs (p ∷ ps) root apart,
    )
