-- ===== src/Eql/Paths.antt =====
-- What setPath and delPath (internal/eql/eql.go) change, read along paths.
use eventr.Common.{
  String, List, [], ◌∷◌, Option, none, some, ◌≡◌, ◌≢◌, refl, ◌⊎◌, inl, inr, arith, ap, ◌∙◌, sym,
  ite,
}
use eventr.Common.Text.{string_dec}
use eventr.Config.Value.{Value, Fields, nil, object, find, at, put, as_object, find-put}
use eventr.Eql.{next_map, set_parts, split_path, set_path}

-- The value at the end of a path, and none where a part is missing or no map holds it.
abbrev pub within : (Fields → Option Value) → Option Fields → Option Value
within get none = none
within get (some m) = get m

unfoldable pub get_parts : List String → Fields → Option Value
unfolding at
get_parts [] m = none
get_parts (part ∷ []) m = find part m
get_parts (part ∷ p ∷ parts) m = within (get_parts (p ∷ parts)) (as_object (at part m))

-- The paths part at some key, so that neither is an end of the other.
abbrev pub Apart : List String → List String → Type 0
Apart [] qs = ⊥
Apart (p ∷ ps) [] = ⊥
Apart (p ∷ ps) (q ∷ qs) = (p ≢ q) ⊎ (p ≡ q) × Apart ps qs

pub at-put :
    (j k : String) (v : Value) (m : Fields) → at j (put k v m) ≡ ite (string_dec j k) v (at j m)
unfolding at
at-put j k v m = ground (arith, find-put j k v m)

get_parts-nil : (ps : List String) → get_parts ps nil ≡ none
unfolding get_parts find at
get_parts-nil [] = refl
get_parts-nil (p ∷ []) = refl
get_parts-nil (p ∷ q ∷ ps) = refl

get_parts-next_map :
    (ps : List String) (o : Option Fields) → get_parts ps (next_map o) ≡ within (get_parts ps) o
get_parts-next_map ps none = get_parts-nil ps
get_parts-next_map ps (some m) = refl

set_parts-get :
    (p : String) (ps : List String) (v : Value) (m : Fields)
    → get_parts (p ∷ ps) (set_parts (p ∷ ps) v m) ≡ some v
unfolding get_parts set_parts
set_parts-get p [] v m = ground (arith, find-put p p v m)
set_parts-get p (q ∷ ps) v m =
    let next = set_parts (q ∷ ps) v (next_map (as_object (at p m))) in
    let here : at p (put p (object next) m) ≡ object next =
      ground (arith, at-put p p (object next) m) in
    ap (λ x. within (get_parts (q ∷ ps)) (as_object x)) here ∙ set_parts-get q ps v _

-- A write below a key changes the map at that key only.
set_parts-put :
    (q : String) (qs : List String) (v : Value) (m : Fields)
    → (w : Value) × (set_parts (q ∷ qs) v m ≡ put q w m)
unfolding set_parts
set_parts-put q [] v m = (v, refl)
set_parts-put q (r ∷ qs) v m = (_, refl)

-- Below a key where a map w stands now, reading goes on in w.
pub get_parts-below :
    (p q : String) (ps : List String) (w m : Fields)
    → p ≡ q
    → (r : String) → get_parts (p ∷ r ∷ ps) (put q (object w) m) ≡ get_parts (r ∷ ps) w
unfolding get_parts
get_parts-below p q ps w m e r =
    let now : at p (put q (object w) m) ≡ object w = ground (arith, at-put p q (object w) m) in
    ap (λ x. within (get_parts (r ∷ ps)) (as_object x)) now

pub get_parts-put_other :
    (p q : String) (ps : List String) (w : Value) (m : Fields)
    → p ≢ q
    → get_parts (p ∷ ps) (put q w m) ≡ get_parts (p ∷ ps) m
unfolding get_parts
get_parts-put_other p q [] w m e = ground (arith, find-put p q w m)
get_parts-put_other p q (r ∷ ps) w m e =
    let same : at p (put q w m) ≡ at p m = ground (arith, at-put p q w m) in
    ap (λ x. within (get_parts (r ∷ ps)) (as_object x)) same

set_parts-Apart :
    (ps qs : List String) (v : Value) (m : Fields)
    → Apart ps qs
    → get_parts ps (set_parts qs v m) ≡ get_parts ps m
unfolding set_parts get_parts
set_parts-Apart [] qs v m h = absurd h
set_parts-Apart (p ∷ ps) [] v m h = absurd h
set_parts-Apart (p ∷ ps) (q ∷ qs) v m (inl e) =
    let (w, f) = set_parts-put q qs v m in
    ap (get_parts (p ∷ ps)) f ∙ get_parts-put_other p q ps w m e
set_parts-Apart (p ∷ []) (q ∷ qs) v m (inr (e, h)) = absurd h
set_parts-Apart (p ∷ r ∷ ps) (q ∷ []) v m (inr (e, h)) = absurd h
set_parts-Apart (p ∷ r ∷ ps) (q ∷ s ∷ qs) v m (inr (e, h)) =
    let old = next_map (as_object (at q m)) in
    get_parts-below p q ps (set_parts (s ∷ qs) v old) m e r
    ∙ set_parts-Apart (r ∷ ps) (s ∷ qs) v old h
    ∙ get_parts-next_map (r ∷ ps) (as_object (at q m))
    ∙ ap (λ x. within (get_parts (r ∷ ps)) (as_object (at x m))) (sym e)

set_path-parts :
    (split : String → List String) (root : Fields) (path : String) (v : Value) (p : String)
    (ps : List String)
    → path ≢ ""
    → split path ≡ p ∷ ps
    → set_path split root path v ≡ set_parts (p ∷ ps) v root
unfolding set_path split_path
set_path-parts split root path v p ps h e =
    let full : set_path split root path v ≡ set_parts (split path) v root = ground arith in
    full ∙ ap (λ x. set_parts x v root) e

-- After setPath at a path that is not empty, reading along its parts gives the value, and reading
-- along any parts that part from them at some key gives what it gave before.
pub set_path-get :
    (split : String → List String) (root : Fields) (path : String) (v : Value) (p : String)
    (ps : List String)
    → path ≢ ""
    → split path ≡ p ∷ ps
    → (get_parts (p ∷ ps) (set_path split root path v) ≡ some v)
      × ((qs : List String)
          → Apart qs (p ∷ ps)
          → get_parts qs (set_path split root path v) ≡ get_parts qs root)
set_path-get split root path v p ps h e =
    let now = set_path-parts split root path v p ps h e in
    (
      ap (get_parts (p ∷ ps)) now ∙ set_parts-get p ps v root,
      λ qs apart. ap (get_parts qs) now ∙ set_parts-Apart qs (p ∷ ps) v root apart,
    )
