-- ===== src/Topology/Validate/Stages.antt =====
-- What the checks of Validate (internal/topology/validate.go) on single stages and edges say.
use mathlib.Core.List.{Memᴰ}
use mathlib.Core.List.Memᴰ
use text.Mathlib.TextEquality.{eq_iff}
use eventr.Common.{
  true, false, String, List, [], ◌∷◌, Option, none, some, ◌≡◌, ◌≢◌, refl, ◌↔◌, ◌⊎◌, inl, inr, arith,
  ap, subst, sym,
}
use eventr.Common.Int.{pos, ltb_ℤ}
use eventr.Common.Text.{contains, string_dec}
use eventr.Common.Dict.{Dict, has}
use eventr.Config.Types.{CodecRef}
use eventr.Topology.Ir.{StageIr, EdgeIr, CodecIr, kind_source, kind_transform, kind_sink}
use eventr.Topology.Validate.{
  ValidationError, ◌then_check◌, check_each, stage_ids, check_edge, incoming, outgoing, check_kind,
  check_incoming, check_ordering, validate_codec_ref,
}

pub then_check_none :
    (a b : Option ValidationError) → (a then_check b ≡ none) ↔ ((a ≡ none) × (b ≡ none))
then_check_none none b = (λ h. (refl, h), λ h. h.1)
then_check_none (some e) b = (λ h. cc, λ h. h.0)

pub check_each-none {ℓ} :
    {A : Type ℓ} (check : A → Option ValidationError) (xs : List A)
    → (check_each check xs ≡ none) ↔ ((x : A) → Memᴰ x xs → check x ≡ none)
unfolding check_each
check_each-none check [] = (λ h x l. absurd (Memᴰ.not-nil l), λ h. refl)
check_each-none check (y ∷ xs) = (
  λ h x l.
      let both = (then_check_none (check y) _).0 h in
      elim (Memᴰ.cases_cons l) [
        | inl e ↦ rw e both.0
        | inr later ↦ (check_each-none check xs).0 both.1 x later
      ],
  λ h.
      (then_check_none (check y) _).1
        (h y (Memᴰ.head refl), (check_each-none check xs).1 (λ x l. h x (Memᴰ.tail l))),
)

-- Some stage has this id.
abbrev pub Declared : List StageIr → String → Type 0
Declared stages id = (s : StageIr) × Memᴰ s stages × (s.id ≡ id)

pub contains-stage_ids :
    (stages : List StageIr) (id : String)
    → (contains (stage_ids stages) id ≡ true) ↔ Declared stages id
unfolding stage_ids
contains-stage_ids [] id = (λ h. cc, λ (s, l, e). absurd (Memᴰ.not-nil l))
contains-stage_ids (st ∷ rest) id = (
  λ h. elim (string_dec id st.id) [
    | yes e ↦ (st, Memᴰ.head refl, sym e)
    | no ne ↦ let (s, l, e) = (contains-stage_ids rest id).0 (ground arith) in (s, Memᴰ.tail l, e)
  ],
  λ (s, l, e). elim (Memᴰ.cases_cons l) [
    | inl same ↦ let i : s.id ≡ st.id = ap (λ t. t.id) same in ground arith
    | inr later ↦ let ih = (contains-stage_ids rest id).1 (s, later, e) in ground arith
  ],
)

pub check_edge-none :
    (ids : List String) (e : EdgeIr)
    → (check_edge ids e ≡ none) ↔ (
        (contains ids e.from ≡ true)
        × (contains ids e.to ≡ true)
        × ((e.route ≡ "") ⊎ (e.condition ≡ "")))
unfolding check_edge
check_edge-none ids e = ground arith

pub incoming-eq-zero :
    (id : String) (es : List EdgeIr) → (incoming id es ≡ 0) ↔ ((e : EdgeIr) → Memᴰ e es → e.to ≢ id)
unfolding incoming
incoming-eq-zero id [] = (λ h e l. absurd (Memᴰ.not-nil l), λ h. refl)
incoming-eq-zero id (d ∷ es) = elim (string_dec d.to id) [
  | yes p ↦ (λ h. absurd (ground arith), λ h. absurd (h d (Memᴰ.head refl) p))
  | no np ↦ (
    λ h e l q. elim (Memᴰ.cases_cons l) [
      | inl same ↦ np (subst (λ x. x.to ≡ id) same q)
      | inr later ↦ (incoming-eq-zero id es).0 (ground arith) e later q
    ],
    λ h. let ih = (incoming-eq-zero id es).1 (λ e l. h e (Memᴰ.tail l)) in ground arith,
  )
]

pub outgoing-eq-zero :
    (id : String) (es : List EdgeIr)
    → (outgoing id es ≡ 0) ↔ ((e : EdgeIr) → Memᴰ e es → e.from ≢ id)
unfolding outgoing
outgoing-eq-zero id [] = (λ h e l. absurd (Memᴰ.not-nil l), λ h. refl)
outgoing-eq-zero id (d ∷ es) = elim (string_dec d.from id) [
  | yes p ↦ (λ h. absurd (ground arith), λ h. absurd (h d (Memᴰ.head refl) p))
  | no np ↦ (
    λ h e l q. elim (Memᴰ.cases_cons l) [
      | inl same ↦ np (subst (λ x. x.from ≡ id) same q)
      | inr later ↦ (outgoing-eq-zero id es).0 (ground arith) e later q
    ],
    λ h. let ih = (outgoing-eq-zero id es).1 (λ e l. h e (Memᴰ.tail l)) in ground arith,
  )
]

-- A stage that is no sink of edges has one that leads to it.
pub incoming-ne-zero :
    (id : String) (es : List EdgeIr)
    → (incoming id es ≢ 0) ↔ ((e : EdgeIr) × Memᴰ e es × (e.to ≡ id))
unfolding incoming
incoming-ne-zero id [] = (λ h. absurd (h refl), λ (e, l, _). absurd (Memᴰ.not-nil l))
incoming-ne-zero id (d ∷ es) = elim (string_dec d.to id) [
  | yes p ↦ (λ h. (d, Memᴰ.head refl, p), λ w. ground arith)
  | no np ↦ (
    λ h. let (e, l, q) = (incoming-ne-zero id es).0 (ground arith) in (e, Memᴰ.tail l, q),
    λ (e, l, q). elim (Memᴰ.cases_cons l) [
      | inl same ↦ absurd (np (subst (λ x. x.to ≡ id) same q))
      | inr later ↦ let ih = (incoming-ne-zero id es).1 (e, later, q) in ground arith
    ],
  )
]

kinds_differ : ◌≢◌ {A = String} kind_source kind_sink
kinds_differ = ground (arith, eq_iff "source" "sink")

pub check_kind-none :
    (es : List EdgeIr) (st : StageIr)
    → (check_kind es st ≡ none) ↔ (
        (st.kind ≡ kind_source → incoming st.id es ≡ 0)
        × (st.kind ≡ kind_sink → outgoing st.id es ≡ 0)
        × ((st.kind ≡ kind_source) ⊎ (st.kind ≡ kind_sink) ⊎ (st.kind ≡ kind_transform)))
unfolding check_kind
check_kind-none es st = ground (arith, kinds_differ)

pub check_incoming-none :
    (es : List EdgeIr) (st : StageIr)
    → (check_incoming es st ≡ none) ↔ (st.kind ≢ kind_source → incoming st.id es ≢ 0)
unfolding check_incoming
check_incoming-none es st = ground arith

pub check_ordering-none :
    (st : StageIr)
    → (check_ordering st ≡ none)
      ↔ (st.ordering ≡ "ordered" → ltb_ℤ (pos 1) st.max_in_flight ≡ false)
unfolding check_ordering
check_ordering-none st = ground arith

-- A reference to a codec by name finds the name. (A reference without a name is empty or names a
-- codec type, and is not looked up.)
abbrev pub Resolves : Dict CodecIr → Option CodecRef → Type 0
Resolves codecs none = Unit {0}
Resolves codecs (some r) = r.ref ≢ "" → has r.ref codecs ≡ true

pub validate_codec_ref-none :
    (id : String) (ref : Option CodecRef) (codecs : Dict CodecIr) (role : String)
    → (validate_codec_ref id ref codecs role ≡ none) ↔ Resolves codecs ref
unfolding validate_codec_ref
validate_codec_ref-none id none codecs role = (λ h. tt, λ h. refl)
validate_codec_ref-none id (some ref) codecs role = ground arith
