-- ===== src/Topology/Build/Codecs.antt =====
-- The table of codecs that FromConfig of internal/topology/build.go fills.
use mathlib.Core.List.{Memᴰ}
use mathlib.Core.List.Memᴰ
use eventr.Common.{
  String, List, [], ◌∷◌, none, some, ◌≡◌, ◌≢◌, refl, sym, ap, ◌∙◌, subst, arith, inl, inr, ◌⊎◌,
  Bool-cases, Option-cases,
}
use eventr.Common.Text.{◌==◌, string_dec}
use eventr.Common.Dict.{Dict, lookup, insert, lookup-insert}
use eventr.Config.Types.{CodecConfig}
use eventr.Topology.Ir.{CodecIr}
use eventr.Topology.Build.{ok, add_codecs}

-- No two codecs have one name.
abbrev pub Separate : List CodecConfig → Type 0
Separate [] = Unit
Separate (c ∷ rest) = ((d : CodecConfig) → Memᴰ d rest → d.name ≢ c.name) × Separate rest

pub record SameCodec (c : CodecConfig) (x : CodecIr) : Type 0 where
  pub name : x.name ≡ c.name
  pub type : x.type ≡ c.type
  pub config : x.config ≡ c.config

abbrev pub Entered : Dict CodecIr → CodecConfig → Type 0
Entered out c = (x : CodecIr) × (lookup c.name out ≡ some x) × SameCodec c x

-- The table `out` has the entries of `table` and those of the codecs, and no others.
pub record Added (table : Dict CodecIr) (codecs : List CodecConfig) (out : Dict CodecIr)
    : Type 0 where
  pub named : (c : CodecConfig) → Memᴰ c codecs → c.name ≢ ""
  pub separate : Separate codecs
  pub fresh : (c : CodecConfig) → Memᴰ c codecs → lookup c.name table ≡ none
  pub kept : (n : String) (x : CodecIr) → lookup n table ≡ some x → lookup n out ≡ some x
  pub entered : (c : CodecConfig) → Memᴰ c codecs → Entered out c
  pub only :
      (n : String) (x : CodecIr)
      → lookup n out ≡ some x
      → (lookup n table ≡ some x) ⊎ (c : CodecConfig) × Memᴰ c codecs × (c.name ≡ n)

abbrev codec_of : CodecConfig → CodecIr
codec_of c = record { name = c.name; type = c.type; config = c.config }

-- A name that is not in the table with one codec more is another one, and not in the table.
free_before :
    (c : CodecConfig) (x : CodecIr) (n : String) (table : Dict CodecIr)
    → lookup n (insert c.name x table) ≡ none
    → (n ≢ c.name) × (lookup n table ≡ none)
free_before c x n table h = let l = lookup-insert n c.name x table in ground arith

with_one :
    (c : CodecConfig) (x : CodecIr) (table : Dict CodecIr)
    → lookup c.name (insert c.name x table) ≡ some x
with_one c x table = let l = lookup-insert c.name c.name x table in ground arith

with_others :
    (c : CodecConfig) (x y : CodecIr) (n : String) (table : Dict CodecIr)
    → lookup c.name table ≡ none
    → lookup n table ≡ some y
    → lookup n (insert c.name x table) ≡ some y
with_others c x y n table free h =
    let l = lookup-insert n c.name x table in
    elim (string_dec n c.name) [
      | yes e ↦
          absurd (let k : lookup n table ≡ none = ap (λ m. lookup m table) e ∙ free in ground arith)
      | no ne ↦ ground arith
    ]

only_before :
    (c : CodecConfig) (x y : CodecIr) (n : String) (table : Dict CodecIr)
    → lookup n (insert c.name x table) ≡ some y
    → (lookup n table ≡ some y) ⊎ (c.name ≡ n)
only_before c x y n table h =
    let l = lookup-insert n c.name x table in
    elim (string_dec n c.name) [ yes e ↦ inr (sym e) | no ne ↦ inl (ground arith) ]

Added-cons :
    (c : CodecConfig) (x : CodecIr) (codecs : List CodecConfig) (table out : Dict CodecIr)
    → c.name ≢ ""
    → lookup c.name table ≡ none
    → SameCodec c x
    → Added (insert c.name x table) codecs out
    → Added table (c ∷ codecs) out
Added-cons c x codecs table out ne free same rest = record {
  named = λ d l. elim (Memᴰ.cases_cons l) [
    | inl e ↦ subst (λ z. z.name ≢ "") (sym e) ne
    | inr later ↦ rest.named d later
  ];
  separate = (λ d l. (free_before c x d.name table (rest.fresh d l)).0, rest.separate);
  fresh = λ d l. elim (Memᴰ.cases_cons l) [
    | inl e ↦ subst (λ z. lookup z.name table ≡ none) (sym e) free
    | inr later ↦ (free_before c x d.name table (rest.fresh d later)).1
  ];
  kept = λ n y h. rest.kept n y (with_others c x y n table free h);
  entered = λ d l. elim (Memᴰ.cases_cons l) [
    | inl e ↦ subst (Entered out) (sym e) (x, rest.kept c.name x (with_one c x table), same)
    | inr later ↦ rest.entered d later
  ];
  only = λ n y h. elim (rest.only n y h) [
    | inr (d, l, e) ↦ inr (d, Memᴰ.tail l, e)
    | inl before ↦ elim (only_before c x y n table before) [
      | inl k ↦ inl k
      | inr e ↦ inr (c, Memᴰ.head refl, e)
    ]
  ];
}

pub add_codecs-Added :
    (table : Dict CodecIr) (codecs : List CodecConfig) (out : Dict CodecIr)
    → add_codecs table codecs ≡ ok out
    → Added table codecs out
unfolding add_codecs
add_codecs-Added table [] out h =
    let same : table ≡ out = cc in
    record {
      named = λ c l. absurd (Memᴰ.not-nil l);
      separate = tt;
      fresh = λ c l. absurd (Memᴰ.not-nil l);
      kept = λ n x k. subst (λ t. lookup n t ≡ some x) same k;
      entered = λ c l. absurd (Memᴰ.not-nil l);
      only = λ n x k. inl (subst (λ t. lookup n t ≡ some x) (sym same) k);
    }
add_codecs-Added table (c ∷ codecs) out h = elim (Bool-cases (c.name == "")) [
  | inl e ↦ absurd (ground arith)
  | inr named ↦ elim (Option-cases (lookup c.name table)) [
    | inr (x, e) ↦ absurd (ground arith)
    | inl free ↦
        Added-cons c (codec_of c) codecs table out (ground arith) free
          (record { name = refl; type = refl; config = refl })
          (add_codecs-Added (insert c.name (codec_of c) table) codecs out (ground arith))
  ]
]
