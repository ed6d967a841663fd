-- ===== src/Topology/Validate/Ids.antt =====
-- The first loop of Validate (internal/topology/validate.go): ids are present and distinct.
use mathlib.Core.List.{Memᴰ}
use mathlib.Core.List.Memᴰ
use eventr.Common.{
  false, String, List, [], ◌∷◌, Option, none, ◌≡◌, ◌≢◌, refl, ◌↔◌, inl, inr, arith, ap,
}
use eventr.Common.Text.{contains, ◌==◌, string_dec}
use eventr.Topology.Ir.{StageIr}
use eventr.Topology.Validate.{
  ValidationError, ◌then_check◌, fail_if, check_ids, missing_id, duplicate_id,
}
use eventr.Topology.Validate.Stages.{Declared}

-- No two stages have the same id.
abbrev pub Distinct : List StageIr → Type 0
Distinct [] = Unit
Distinct (st ∷ rest) = ¬ Declared rest st.id × Distinct rest

-- The ids are present, and none of them was seen before the loop.
abbrev New : List String → List StageIr → Type 0
New seen stages = (s : StageIr) → Memᴰ s stages → (s.id ≢ "") × (contains seen s.id ≡ false)

one_id_none :
    (seen : List String) (st : StageIr) (rest : Option ValidationError)
    → (fail_if (st.id == "") missing_id
          then_check fail_if (contains seen st.id) (duplicate_id st.id)
          then_check rest
        ≡ none)
      ↔ ((st.id ≢ "") × (contains seen st.id ≡ false) × (rest ≡ none))
one_id_none seen st rest = ground arith

pub check_ids-none :
    (seen : List String) (stages : List StageIr)
    → (check_ids seen stages ≡ none) ↔ (New seen stages × Distinct stages)
unfolding check_ids
check_ids-none seen [] = (λ h. (λ s l. absurd (Memᴰ.not-nil l), tt), λ h. refl)
check_ids-none seen (st ∷ rest) = (
  λ h.
      let (present, fresh, more) = (one_id_none seen st _).0 h in
      let (new, distinct) = (check_ids-none (st.id ∷ seen) rest).0 more in
      (
        λ s l. elim (Memᴰ.cases_cons l) [
          | inl e ↦ let i : s.id ≡ st.id = ap (λ t. t.id) e in rw i (present, fresh)
          | inr later ↦ let both = new s later in (both.0, ground arith)
        ],
        (λ (s, l, e). let both = new s l in ground arith, distinct),
      ),
  λ h.
      let (new, (alone, distinct)) = h in
      let (present, fresh) = new st (Memᴰ.head refl) in
      (one_id_none seen st _).1 (
        present,
        fresh,
        (check_ids-none (st.id ∷ seen) rest).1 (
          λ s l.
              let both = new s (Memᴰ.tail l) in
              (
                both.0,
                elim (string_dec s.id st.id) [
                  | yes e ↦ absurd (alone (s, l, e))
                  | no ne ↦ ground arith
                ],
              ),
          distinct,
        ),
      ),
)
