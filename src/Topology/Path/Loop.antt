-- ===== src/Topology/Path/Loop.antt =====
-- One round of the search of hasSourceToSinkPath (internal/topology/validate.go): what is seen, what
-- waits in the queue, and the work that is left.
use mathlib.Core.List.{Memᴰ}
use mathlib.Core.List.Memᴰ
use eventr.Common.{
  true, false, String, List, [], ◌∷◌, ◌++◌, ℕ, suc, if◌then◌else◌, length, ◌≡◌, ◌⊎◌, inl, inr, ◌↔◌,
  ⊎_elim, arith, ◌+◌, ◌≤◌, ◌<◌, length-append,
}
use eventr.Common.Text.{contains, string_dec}
use eventr.Topology.Path.{Frontier, offer, offer_all}

pub contains_iff : (xs : List String) (x : String) → (contains xs x ≡ true) ↔ Memᴰ x xs
contains_iff [] x = (λ h. cc, λ l. absurd (Memᴰ.not-nil l))
contains_iff (y ∷ xs) x = elim (string_dec x y) [
  | yes e ↦ (λ _. Memᴰ.head e, λ _. ground arith)
  | no ne ↦ (
    λ h. Memᴰ.tail ((contains_iff xs x).0 (ground arith)),
    λ l. elim (Memᴰ.cases_cons l) [
      | inl e ↦ absurd (ne e)
      | inr m ↦ let ih = (contains_iff xs x).1 m in ground arith
    ],
  )
]

pub Memᴰ-concat {ℓ} :
    {A : Type ℓ} (a x : A) (xs : List A) → Memᴰ a (xs ++ x ∷ []) ↔ (Memᴰ a xs ⊎ (a ≡ x))
Memᴰ-concat a x xs = (
  λ m. ⊎_elim inl (λ last. inr (Memᴰ.eq_of_singleton last)) (Memᴰ.append_cases xs m),
  ⊎_elim (Memᴰ.append_left _) (λ e. Memᴰ.append_right xs (Memᴰ.head e)),
)

-- Exactly the targets are added to what is seen.
pub contains-offer_all :
    (bs : List String) (f : Frontier) (x : String)
    → (contains (offer_all bs f).seen x ≡ true)
      ↔ ((contains f.seen x ≡ true) ⊎ (contains bs x ≡ true))
unfolding offer_all offer
contains-offer_all [] f x = (inl, ⊎_elim (λ h. h) (λ h. cc))
contains-offer_all (b ∷ bs) f x = ground (arith, contains-offer_all bs (offer b f) x)

-- The queue grows by what is new.
pub mem-offer_all :
    (bs : List String) (f : Frontier) (x : String)
    → Memᴰ x (offer_all bs f).queue
      ↔ (Memᴰ x f.queue ⊎ (contains (offer_all bs f).seen x ≡ true) × (contains f.seen x ≡ false))
unfolding offer_all offer
mem-offer_all [] f x = (inl, ⊎_elim (λ h. h) (λ (a, b). cc))
mem-offer_all (b ∷ bs) f x = ground (
  arith,
  mem-offer_all bs (offer b f) x,
  contains-offer_all bs (offer b f) x,
  Memᴰ-concat x b f.queue,
)

abbrev pub count_new : List String → List String → ℕ
count_new seen [] = 0
count_new seen (x ∷ xs) = if contains seen x then count_new seen xs else suc (count_new seen xs)

pub count_new-le :
    (seen xs : List String) (k : String) → count_new (k ∷ seen) xs ≤ count_new seen xs
count_new-le seen [] k = omega arith
count_new-le seen (x ∷ xs) k = ground (arith, count_new-le seen xs k)

pub count_new-le-length : (seen xs : List String) → count_new seen xs ≤ length xs
count_new-le-length seen [] = omega arith
count_new-le-length seen (x ∷ xs) = ground (arith, count_new-le-length seen xs)

count_new-lt :
    (seen xs : List String) (k : String)
    → contains xs k ≡ true
    → contains seen k ≡ false
    → count_new (k ∷ seen) xs < count_new seen xs
count_new-lt seen [] k l h = cc
count_new-lt seen (x ∷ xs) k l h = ground (arith, count_new-le seen xs k, count_new-lt seen xs k)

-- The nodes that are new and those that wait: no round makes them more.
abbrev pub work : List String → Frontier → ℕ
work universe f = count_new f.seen universe + length f.queue

pub offer_all-work :
    (universe bs : List String) (f : Frontier)
    → ((b : String) → contains bs b ≡ true → contains universe b ≡ true)
    → work universe (offer_all bs f) ≤ work universe f
unfolding offer_all offer
offer_all-work universe [] f inside = omega arith
offer_all-work universe (b ∷ bs) f inside =
    let rest = offer_all-work universe bs (offer b f) (λ x h. inside x (ground arith)) in
    let listed : contains universe b ≡ true = inside b (ground arith) in
    ground (arith, count_new-lt f.seen universe b, length-append f.queue (b ∷ []))
