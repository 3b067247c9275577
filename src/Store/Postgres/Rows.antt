-- ===== src/Store/Postgres/Rows.antt =====
-- Rows of the table `helppers`: what an insert, an update and a listing are to the row under a directory id.
use helppi_scim_go.Prelude.{
  ◌<◌, String, ◌=ₛ◌, Option, none, some, List, [], ◌∷◌, ◌++◌, map, ◌≡◌, refl, ◌∙◌, arith, ℤ,
  contains, eq_iff, eq_refl, true, false, ap, sym, pos, negsuc, if◌then◌else◌, Bool-cases, inl, inr,
}
use helppi_scim_go.Exec.{atoi}
use helppi_scim_go.Scim.Types.{Time}
use helppi_scim_go.Store.Types.{Helpper, HelpperUpdate}
use helppi_scim_go.Store.Laws.{amended, is_enabled, AreViews}
use helppi_scim_go.Store.Postgres.Tables.{
  find, affected, amend, has_key, is_number, same_number, enabled_rows, Constrained, Permutes,
  nothing, keep, swap, then_next,
}

abbrev pub names : List Helpper → List String
names = map (λ p. p.directory_id)

-- An insert of a row under a directory id that is free.
pub find-insert :
    (n : String) (p : Helpper) (j : String) (rows : List Helpper)
    → p.directory_id ≡ n
    → find n rows ≡ none
    → find j (rows ++ p ∷ []) ≡ (if n =ₛ j then some p else find j rows)
unfolding find
find-insert n p j [] own absent = ground (arith, own)
find-insert n p j (r ∷ rs) own absent =
    ground (
      arith,
      find-insert n p j rs own,
      eq_iff r.directory_id j,
      eq_iff n j,
      eq_iff r.directory_id n,
    )

pub same_number_refl : (z : ℤ) → same_number z z ≡ true
same_number_refl (pos n) = ground arith
same_number_refl (negsuc n) = ground arith

same_number_sound : (a b : ℤ) → same_number a b ≡ true → a ≡ b
same_number_sound (pos a) (pos b) h = ground (arith, h)
same_number_sound (pos a) (negsuc b) h = absurd (ground (arith, h))
same_number_sound (negsuc a) (pos b) h = absurd (ground (arith, h))
same_number_sound (negsuc a) (negsuc b) h = ground (arith, h)

pub own-key : (r : Helpper) (z : ℤ) → atoi r.id ≡ some z → has_key z r ≡ true
own-key r z h = rw h (same_number_refl z)

-- A row with a key has no other.
pub key-own : (r : Helpper) (n z : ℤ) → atoi r.id ≡ some n → has_key z r ≡ true → n ≡ z
key-own r n z h key = same_number_sound n z (sym (ap (λ o. is_number o z) h) ∙ key)

pub found-affected :
    (k : String) (p : Helpper) (z : ℤ) (rows : List Helpper)
    → atoi p.id ≡ some z
    → find k rows ≡ some p
    → 0 < affected z rows
unfolding find affected
found-affected k p z [] number h = absurd (ground (arith, h))
found-affected k p z (r ∷ rs) number h = elim (Bool-cases (r.directory_id =ₛ k)) [
  | inl here ↦
      (let e : r ≡ p = ground (arith, h, here) in
        let key : has_key z r ≡ true = ap (has_key z) e ∙ own-key p z number in
        rw key (omega arith))
  | inr there ↦
      (let rest : 0 < affected z rs = found-affected k p z rs number (ground (arith, h, there)) in
        omega (arith, rest))
]

pub found-number :
    (k : String) (p : Helpper) (rows : List Helpper)
    → Constrained rows
    → find k rows ≡ some p
    → (n : ℤ) × (atoi p.id ≡ some n)
unfolding find
found-number k p [] c h = absurd (ground (arith, h))
found-number k p (r ∷ rs) (_, n, e, _, c) h = elim (Bool-cases (r.directory_id =ₛ k)) [
  | inl here ↦ (n, ground (arith, h, here, e))
  | inr there ↦ found-number k p rs c (ground (arith, h, there))
]

-- An update of a key that no row has.
amend-absent :
    (z : ℤ) (upd : HelpperUpdate) (at : Time) (rows : List Helpper)
    → affected z rows ≡ 0
    → amend z upd at rows ≡ rows
unfolding affected amend
amend-absent z upd at [] h = refl
amend-absent z upd at (r ∷ rs) h = ground (arith, amend-absent z upd at rs)

-- A row before the one with a key has another key.
other-key :
    (k : String) (p : Helpper) (z : ℤ) (r : Helpper) (n : ℤ) (rs : List Helpper)
    → atoi r.id ≡ some n
    → affected n rs ≡ 0
    → atoi p.id ≡ some z
    → find k rs ≡ some p
    → has_key z r ≡ false
other-key k p z r n rs e once number h = elim (Bool-cases (has_key z r)) [
  | inl key ↦ absurd (
      let two : 0 < affected n rs =
        found-affected k p n rs (number ∙ ap some (sym (key-own r n z e key))) h in
      omega (arith, two, once))
  | inr other ↦ other
]

pub find-amend :
    (k : String) (p : Helpper) (z : ℤ) (upd : HelpperUpdate) (at : Time) (j : String)
    (rows : List Helpper)
    → Constrained rows
    → atoi p.id ≡ some z
    → find k rows ≡ some p
    → find j (amend z upd at rows) ≡ (if k =ₛ j then some (amended p upd at) else find j rows)
unfolding find amend
find-amend k p z upd at j [] c number h = absurd (ground (arith, h))
find-amend k p z upd at j (r ∷ rs) (free, n, e, once, c) number h =
    elim (Bool-cases (r.directory_id =ₛ k)) [
      | inl here ↦
          (let same : r ≡ p = ground (arith, h, here) in
            let key : has_key z r ≡ true = ap (has_key z) same ∙ own-key p z number in
            let alone : affected z rs ≡ 0 =
              ap (λ m. affected m rs) (sym (key-own r n z e key)) ∙ once in
            rw (key, amend-absent z upd at rs alone)
              (ground (arith, same, here, eq_iff r.directory_id k)))
      | inr there ↦
          (let h' : find k rs ≡ some p = ground (arith, h, there) in
            rw (other-key k p z r n rs e once number h') (
              ground (
                arith,
                there,
                h',
                find-amend k p z upd at j rs c number h',
                eq_iff r.directory_id k,
                eq_iff r.directory_id j,
                eq_iff k j,
              )))
    ]

pub contains-Permutes :
    (j : String) {rs ss : List Helpper}
    → Permutes rs ss
    → contains j (names rs) ≡ contains j (names ss)
unfolding contains
contains-Permutes j nothing = refl
contains-Permutes j (keep r p) = ground (arith, contains-Permutes j p)
contains-Permutes j (swap r s rs) = ground arith
contains-Permutes j (then_next p q) = contains-Permutes j p ∙ contains-Permutes j q

pub contains-enabled_rows :
    (j : String) (rows : List Helpper)
    → Constrained rows
    → contains j (names (enabled_rows rows)) ≡ is_enabled (find j rows)
unfolding contains enabled_rows find
contains-enabled_rows j [] c = refl
contains-enabled_rows j (r ∷ rs) (free, _, _, _, c) =
    ground (arith, contains-enabled_rows j rs c, eq_iff r.directory_id j)

-- Every row that is listed is the one under its directory id, and is listed once.
pub AreViews-Permutes :
    (v : String → Option Helpper) {rs ss : List Helpper}
    → Permutes rs ss
    → AreViews v ss
    → AreViews v rs
unfolding contains
AreViews-Permutes v nothing h = h
AreViews-Permutes v (keep r p) (own, absent, h) =
    (own, contains-Permutes r.directory_id p ∙ absent, AreViews-Permutes v p h)
AreViews-Permutes v (swap r s rs) h =
    ground (arith, h, eq_iff r.directory_id s.directory_id, eq_iff s.directory_id r.directory_id)
AreViews-Permutes v (then_next p q) h = AreViews-Permutes v p (AreViews-Permutes v q h)

pub enabled_rows-AreViews :
    (v : String → Option Helpper) (rows : List Helpper)
    → Constrained rows
    → ((k : String) (p : Helpper) → find k rows ≡ some p → v k ≡ some p)
    → AreViews v (enabled_rows rows)
unfolding find enabled_rows
enabled_rows-AreViews v [] c h = tt
enabled_rows-AreViews v (r ∷ rs) (free, _, _, _, c) h =
    let rest =
      enabled_rows-AreViews v rs c
        (λ k p e. ground (arith, h k p, e, free, eq_iff r.directory_id k)) in
    ground (
      arith,
      rest,
      h r.directory_id r,
      eq_refl r.directory_id,
      free,
      contains-enabled_rows r.directory_id rs c,
    )
