-- ===== src/Store/Postgres/Listed.antt =====
-- What `EnabledHelppers` of store/postgres/postgres.go lists.
use helppi_scim_go.Prelude.{String, ◌≡◌, arith, List, [], contains, ◌∙◌, sym, subst}
use helppi_scim_go.Exec.{Result, ok, err}
use helppi_scim_go.Store.Types.{Helpper}
use helppi_scim_go.Store.Laws.{AreViews, is_enabled}
use helppi_scim_go.Store.Postgres.{Database, Scans, listed, enabled_helppers}
use helppi_scim_go.Store.Postgres.Tables.{DatabaseLaws, find, Constrained, EnabledAnswer}
use helppi_scim_go.Store.Postgres.Rows.{
  names, contains-Permutes, contains-enabled_rows, AreViews-Permutes, enabled_rows-AreViews,
}
use helppi_scim_go.Store.Postgres.Answers.{collect-Reads}

-- Each enabled helpper as its row has it, once, and no other.
abbrev pub ListsEnabled : List Helpper → List Helpper → Type 0
ListsEnabled rows ps =
    AreViews (λ k. find k rows) ps
    × ((j : String) → contains j (names ps) ≡ is_enabled (find j rows))

listed-ListsEnabled :
    (rows : List Helpper) (r : Result Scans) (qs : List Helpper)
    → Constrained rows
    → EnabledAnswer rows r
    → listed r ≡ ok qs
    → ListsEnabled rows qs
unfolding listed
listed-ListsEnabled rows (err e) qs c h q = absurd (ground (arith, q))
listed-ListsEnabled rows (ok s) qs c (ps, same, reads) q =
    subst (ListsEnabled rows) (sym (collect-Reads s.scans s.closing [] ps qs reads q)) (
      AreViews-Permutes (λ k. find k rows) same
          (enabled_rows-AreViews (λ k. find k rows) rows c (λ k p e. e)),
      λ j. contains-Permutes j same ∙ contains-enabled_rows j rows c,
    )

-- When `EnabledHelppers` returns a list, however the rows were delivered, the list has every enabled helpper as its row
-- has it, once, and no other; a delivery that breaks off is an error, never a shorter list.
pub enabled_helppers-ListsEnabled :
    {D : Type 0} (db : Database D) (laws : DatabaseLaws db) (d : D) (ps : List Helpper)
    → (enabled_helppers db d).0 ≡ ok ps
    → ListsEnabled (laws.tables d).rows ps
unfolding enabled_helppers
enabled_helppers-ListsEnabled db laws d ps h =
    listed-ListsEnabled (laws.tables d).rows (db.select_enabled d).0 ps (laws.constraints d)
      (laws.select_enabled d).0 h
