-- ===== src/Conformance/Suite/Records.antt =====
-- What the tests of the checks tell of a list of records (conformance/checks.go, lines 140 to 151, 169 to 175 and 222 to
-- 229).
use helppi_scim_go.Prelude.{
  ◌<◌, String, ◌=ₛ◌, Bool, true, false, Option, none, some, List, [], ◌∷◌, ◌≡◌, refl, ap, arith,
  All, contains, eq_iff, eq_refl,
}
use helppi_scim_go.Scim.Types.{User}
use helppi_scim_go.Conformance.PhaseOne.{Texts, ids_stable, all_active, has_active, all_dated}

-- No two records have one id.
abbrev pub HaveDistinctIds : List User → Type 0
HaveDistinctIds [] = Unit {0}
HaveDistinctIds (u ∷ us) = All (λ v. (v.id =ₛ u.id) ≡ false) us × HaveDistinctIds us

unseen :
    (texts : Texts) (k : String) (seen : List String) (us : List User)
    → contains k seen ≡ true
    → ids_stable texts seen us ≡ true
    → All (λ v. (v.id =ₛ k) ≡ false) us
unfolding ids_stable contains
unseen texts k seen [] held h = tt
unseen texts k seen (u ∷ us) held h =
    (other (u.id =ₛ k) refl, unseen texts k (u.id ∷ seen) us (ground arith) (ground arith))
  where
    other : (b : Bool) → (u.id =ₛ k) ≡ b → b ≡ false
    other false e = refl
    other true e =
        let same : contains u.id seen ≡ contains k seen =
          ap (λ s. contains s seen) ((eq_iff u.id k).0 e) in
        ground arith

first-contains : (k : String) (seen : List String) → contains k (k ∷ seen) ≡ true
unfolding contains
first-contains k seen = ground (arith, eq_refl k)

pub stable-HaveDistinctIds :
    (texts : Texts) (seen : List String) (us : List User)
    → ids_stable texts seen us ≡ true
    → All (λ u. (texts.trim_space u.id =ₛ "") ≡ false) us × HaveDistinctIds us
unfolding ids_stable
stable-HaveDistinctIds texts seen [] h = (tt, tt)
stable-HaveDistinctIds texts seen (u ∷ us) h =
    let rest : ids_stable texts (u.id ∷ seen) us ≡ true = ground arith in
    let (named, distinct) = stable-HaveDistinctIds texts (u.id ∷ seen) us rest in
    (
      (ground arith, named),
      (unseen texts u.id (u.id ∷ seen) us (first-contains u.id seen) rest, distinct),
    )

pub active-All :
    (us : List User) → all_active us ≡ true → All (λ u. (b : Bool) × u.active ≡ some b) us
unfolding all_active
active-All [] h = tt
active-All (u ∷ us) h = (known u.active (ground arith), active-All us (ground arith))
  where
    known : (o : Option Bool) → has_active o ≡ true → (b : Bool) × o ≡ some b
    known none h = ground arith
    known (some b) h = (b, refl)

pub dated-All : (us : List User) → all_dated us ≡ true → All (λ u. 0 < u.last_modified) us
unfolding all_dated
dated-All [] h = tt
dated-All (u ∷ us) h = (ground arith, dated-All us (ground arith))
