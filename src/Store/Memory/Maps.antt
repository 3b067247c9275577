-- ===== src/Store/Memory/Maps.antt =====
-- Go's `map[string]*store.Helpper` as an association list: a key stands in it once.
use helppi_scim_go.Prelude.{
  ℕ, String, ◌=ₛ◌, Option, none, some, List, [], ◌∷◌, ◌≡◌, refl, arith, eq_iff, if◌then◌else◌,
}

unfoldable pub lookup : String → List (String × ℕ) → Option ℕ
lookup k [] = none
lookup k ((j, p) ∷ l) = if j =ₛ k then some p else lookup k l

unfoldable pub insert : String → ℕ → List (String × ℕ) → List (String × ℕ)
insert k p [] = (k, p) ∷ []
insert k p ((j, q) ∷ l) = if j =ₛ k then (k, p) ∷ l else (j, q) ∷ insert k p l

pub lookup-insert :
    (k j : String) (p : ℕ) (l : List (String × ℕ))
    → lookup j (insert k p l) ≡ (if k =ₛ j then some p else lookup j l)
unfolding lookup insert
lookup-insert k j p [] = ground arith
lookup-insert k j p ((i, q) ∷ l) =
    ground (arith, eq_iff k j, eq_iff i k, eq_iff i j, lookup-insert k j p l)

-- No key stands twice.
abbrev pub Distinct : List (String × ℕ) → Type 0
Distinct [] = Unit
Distinct ((k, p) ∷ l) = (lookup k l ≡ none) × Distinct l

pub insert-Distinct :
    (k : String) (p : ℕ) (l : List (String × ℕ)) → Distinct l → Distinct (insert k p l)
unfolding lookup insert
insert-Distinct k p [] h = (refl, tt)
insert-Distinct k p ((i, q) ∷ l) (absent, h) =
    ground (arith, eq_iff i k, eq_iff k i, lookup-insert k i p l, insert-Distinct k p l h)
