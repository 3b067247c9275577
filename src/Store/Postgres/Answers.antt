-- ===== src/Store/Postgres/Answers.antt =====
-- What the calls of store/postgres/postgres.go make of the answers of the database.
use mathlib.Core.List.{append_assoc, append-nil}
use helppi_scim_go.Prelude.{
  ◌≤◌, String, ◌=ₛ◌, false, Option, none, some, List, [], ◌∷◌, ◌++◌, ◌≡◌, refl, ap, ◌∙◌, arith,
  contains, eq_iff, eq_refl, Bool-cases, inl, inr, ℤ, if◌then◌else◌, ℕ,
}
use helppi_scim_go.Exec.{Result, ok, err, Error, is_not_found, is_already_exists, atoi, context}
use helppi_scim_go.Scim.Types.{Time}
use helppi_scim_go.Store.Types.{Helpper, NewHelpper, HelpperUpdate}
use helppi_scim_go.Store.Laws.{
  LookupAnswer, CreateAnswer, ListAnswer, CheckpointAnswer, created_view, updated_view, amended,
  moved_mark,
}
use helppi_scim_go.Store.Memory.Maps.{lookup, lookup-insert}
use helppi_scim_go.Store.Postgres.{
  Database, Scans, scan_helpper, created, updated, collect, listed, checkpoint_of, reading,
}
use helppi_scim_go.Store.Postgres.Tables.{
  Tables, DatabaseLaws, find, Constrained, SelectAnswer, InsertAnswer, UpdateAnswer, EnabledAnswer,
  SyncAnswer, UpsertAnswer, Reads,
}
use helppi_scim_go.Store.Postgres.Rows.{
  names, find-insert, found-affected, found-number, find-amend, contains-Permutes,
  contains-enabled_rows,
}

pub collect-Reads :
    (ss : List (Result (Option Helpper))) (closing : Option Error) (out ps qs : List Helpper)
    → Reads ss closing ps
    → collect ss closing out ≡ ok qs
    → qs ≡ out ++ ps
unfolding collect scan_helpper
collect-Reads [] none out ps qs h e = ground (arith, h, e, append-nil out)
collect-Reads [] (some x) out ps qs h e = ground (arith, e)
collect-Reads (err x ∷ ss) closing out ps qs h e = ground (arith, e)
collect-Reads (ok none ∷ ss) closing out ps qs h e = absurd h
collect-Reads (ok (some r) ∷ ss) closing out [] qs h e = absurd h
collect-Reads (ok (some r) ∷ ss) closing out (p ∷ ps) qs (same, h) e =
    collect-Reads ss closing (out ++ r ∷ []) ps qs h e
    ∙ append_assoc out (r ∷ []) ps
    ∙ ap (λ (x : Helpper). out ++ x ∷ ps) same

number-ne-empty : (i : String) (m : ℤ) → atoi i ≡ some m → (i =ₛ "") ≡ false
unfolding atoi
number-ne-empty i m h = elim (Bool-cases (i =ₛ "")) [
  | inl e ↦
      absurd (let same : atoi i ≡ atoi "" = ap atoi ((eq_iff i "").0 e) in ground (arith, same, h))
  | inr e ↦ e
]

pub reading_le : (at : Time) → reading at ≤ at
reading_le at = ground arith

-- The checkpoint in the row of a partner.
abbrev pub mark_in : Option Time → Time
mark_in none = 0
mark_in (some at) = reading at

module _ {D : Type 0} (db : Database D) (laws : DatabaseLaws db) where
  abbrev pub view : D → String → Option Helpper
  view d k = find k (laws.tables d).rows

  pub lookup-LookupAnswer :
      (k : String) (rows : List Helpper) (r : Result (Option Helpper))
      → SelectAnswer k rows r
      → LookupAnswer (find k rows) (scan_helpper r)
  unfolding scan_helpper is_not_found
  lookup-LookupAnswer k rows (ok none) h = ground (arith, h)
  lookup-LookupAnswer k rows (ok (some p)) h = ground (arith, h)
  lookup-LookupAnswer k rows (err e) h = ground (arith, h)

  pub create-CreateAnswer :
      (n : NewHelpper) (t t' : Tables) (r : Result (Option Helpper))
      → InsertAnswer n t t' r
      → Constrained t'.rows
      → CreateAnswer n (find n.directory_id t.rows) (created n.directory_id (scan_helpper r))
  unfolding scan_helpper created is_not_found is_already_exists
  create-CreateAnswer n t t' (ok none) h c = λ _ e. h.0 e
  create-CreateAnswer n t t' (ok (some p)) (absent, e, own, login, name, on) c =
      let found : find n.directory_id t'.rows ≡ some p =
        ap (λ (x : Tables). find n.directory_id x.rows) e
        ∙ find-insert n.directory_id p n.directory_id t.rows own absent
        ∙ rw (eq_refl n.directory_id) refl in
      let (m, number) = found-number n.directory_id p t'.rows c found in
      (absent, own, login, name, on, number-ne-empty p.id m number)
  create-CreateAnswer n t t' (err e) ((not_missing, not_taken), _) c =
      rw not_missing (λ a. absurd (ground (arith, not_taken, a)))

  pub create-view :
      (n : NewHelpper) (t t' : Tables) (r : Result (Option Helpper)) (j : String)
      → InsertAnswer n t t' r
      → find j t'.rows ≡ created_view n j (find j t.rows) (created n.directory_id (scan_helpper r))
  unfolding scan_helpper created is_not_found
  create-view n t t' (ok none) j h = ap (λ (x : Tables). find j x.rows) h.1
  create-view n t t' (ok (some p)) j (absent, e, own, _, _, _) =
      ap (λ (x : Tables). find j x.rows) e ∙ find-insert n.directory_id p j t.rows own absent
  create-view n t t' (err e) j (f, h) = ground (arith, f, ap (λ (x : Tables). find j x.rows) h)

  pub update-view :
      (k : String) (p : Helpper) (z : ℤ) (upd : HelpperUpdate) (at : Time) (t t' : Tables)
      (r : Result ℕ) (j : String)
      → Constrained t.rows
      → atoi p.id ≡ some z
      → UpdateAnswer z upd at t t' r
      → find k t.rows ≡ some p
      → find j t'.rows ≡ updated_view k (amended p upd at) j (find j t.rows) (updated p.id r)
  unfolding updated
  update-view k p z upd at t t' (err e) j c number (_, h) found =
      ap (λ (x : Tables). find j x.rows) h
  update-view k p z upd at t t' (ok n) j c number (count, h) found = ground (
    arith,
    count,
    ap (λ (x : Tables). find j x.rows) h,
    found-affected k p z t.rows number found,
    find-amend k p z upd at j t.rows c number found,
  )

  pub list-ListAnswer :
      (rows : List Helpper) (r : Result Scans) (j : String)
      → Constrained rows
      → EnabledAnswer rows r
      → ListAnswer j (find j rows) (listed r)
  unfolding listed
  list-ListAnswer rows (err e) j c h = tt
  list-ListAnswer rows (ok s) j c (ps, same, reads) = answer (collect s.scans s.closing []) refl
    where
      answer :
          (a : Result (List Helpper))
          → collect s.scans s.closing [] ≡ a
          → ListAnswer j (find j rows) a
      answer (err e) q = tt
      answer (ok qs) q =
          ap (λ l. contains j (names l)) (collect-Reads s.scans s.closing [] ps qs reads q)
          ∙ contains-Permutes j same
          ∙ contains-enabled_rows j rows c

  pub mark-sync :
      (v : Option Time) (r : Result (Option Time))
      → SyncAnswer v r
      → CheckpointAnswer (mark_in v) (checkpoint_of r)
  unfolding checkpoint_of
  mark-sync v (ok none) h = ground (arith, h)
  mark-sync v (ok (some at)) h = ground (arith, h)
  mark-sync v (err e) h = tt

  pub upsert-mark :
      (partner other : String) (at : Time) (t t' : Tables) (r : Result (Unit {0}))
      → UpsertAnswer partner at t t' r
      → mark_in (lookup other t'.sync_state) ≡ (
          if partner =ₛ other
          then moved_mark
              (reading at)
              (mark_in (lookup other t.sync_state))
              (context "write checkpoint" r)
          else mark_in (lookup other t.sync_state))
  upsert-mark partner other at t t' (ok _) h =
      ap (λ (x : Tables). mark_in (lookup other x.sync_state)) h
      ∙ ground (arith, lookup-insert partner other at t.sync_state)
  upsert-mark partner other at t t' (err e) h =
      ap (λ (x : Tables). mark_in (lookup other x.sync_state)) h ∙ ground arith
