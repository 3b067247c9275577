-- ===== src/Store/Postgres/Laws.antt =====
-- store/postgres/postgres.go as a store with the laws of Store/Laws, on a database with the laws of Tables.
use helppi_scim_go.Prelude.{
  String, ◌=ₛ◌, Option, none, some, ◌≡◌, refl, ap, ◌∙◌, arith, eq_iff, eq_refl, ℤ, if◌then◌else◌, ℕ,
}
use helppi_scim_go.Exec.{Result, ok, err, atoi}
use helppi_scim_go.Scim.Types.{Time}
use helppi_scim_go.Store.Types.{Helpper, NewHelpper, HelpperUpdate}
use helppi_scim_go.Store.Laws.{StoreLaws, updated_view, amended, moved_mark}
use helppi_scim_go.Store.Memory.Maps.{lookup}
use helppi_scim_go.Store.Postgres.{
  Database, reading, helpper_by_directory_id, create_helpper, update_helpper, enabled_helppers,
  checkpoint, set_checkpoint, postgres_store,
}
use helppi_scim_go.Store.Postgres.Tables.{
  Tables, DatabaseLaws, find, InsertAnswer, UpdateAnswer, UpsertAnswer,
}
use helppi_scim_go.Store.Postgres.Rows.{found-number}
use helppi_scim_go.Store.Postgres.Answers.{
  mark_in, view, lookup-LookupAnswer, create-CreateAnswer, create-view, update-view,
  list-ListAnswer, mark-sync, upsert-mark, reading_le,
}

module _ {D : Type 0} (db : Database D) (laws : DatabaseLaws db) where
  module _ (partner : String) where
    abbrev pub mark : D → Time
    mark d = mark_in (lookup partner (laws.tables d).sync_state)

    abbrev pub kept_at : Time → Time
    kept_at at = reading (laws.stored at)

    pub same-view : (t t' : Tables) (j : String) → t' ≡ t → find j t'.rows ≡ find j t.rows
    same-view t t' j h = ap (λ (x : Tables). find j x.rows) h

    pub same-mark :
        (t t' : Tables)
        → t' ≡ t
        → mark_in (lookup partner t'.sync_state) ≡ mark_in (lookup partner t.sync_state)
    same-mark t t' h = ap (λ (x : Tables). mark_in (lookup partner x.sync_state)) h

    pub insert-mark :
        (n : NewHelpper) (t t' : Tables) (r : Result (Option Helpper))
        → InsertAnswer n t t' r
        → mark_in (lookup partner t'.sync_state) ≡ mark_in (lookup partner t.sync_state)
    insert-mark n t t' (ok none) h = same-mark t t' h.1
    insert-mark n t t' (ok (some p)) h =
        ap (λ (x : Tables). mark_in (lookup partner x.sync_state)) h.1
    insert-mark n t t' (err e) h = same-mark t t' h.1

    update-mark :
        (z : ℤ) (upd : HelpperUpdate) (at : Time) (t t' : Tables) (r : Result ℕ)
        → UpdateAnswer z upd at t t' r
        → mark_in (lookup partner t'.sync_state) ≡ mark_in (lookup partner t.sync_state)
    update-mark z upd at t t' (ok n) h =
        ap (λ (x : Tables). mark_in (lookup partner x.sync_state)) h.1
    update-mark z upd at t t' (err e) h = same-mark t t' h.1

    pub guarded-mark :
        (i : String) (upd : HelpperUpdate) (d : D) (o : Option ℤ)
        → atoi i ≡ o
        → mark (update_helpper db i upd d).1 ≡ mark d
    unfolding update_helpper
    guarded-mark i upd d none e = rw (e, update_helpper) refl
    guarded-mark i upd d (some m) e =
        rw (e, update_helpper)
          (update-mark m upd (laws.now d) (laws.tables d) (laws.tables (db.update_rows i upd d).1)
            (db.update_rows i upd d).0 (laws.update_rows i m upd d e))

    pub number-view :
        (k : String) (p : Helpper) (upd : HelpperUpdate) (d : D) (j : String)
        → view db laws d k ≡ some p
        → view db laws (update_helpper db p.id upd d).1 j
          ≡ updated_view k
              (amended p upd (laws.now d))
              j
              (view db laws d j)
              (update_helpper db p.id upd d).0
    unfolding update_helpper
    number-view k p upd d j found =
        let (m, number) = found-number k p (laws.tables d).rows (laws.constraints d) found in
        rw (number, update_helpper)
          (update-view db laws k p m upd (laws.now d) (laws.tables d)
            (laws.tables (db.update_rows p.id upd d).1) (db.update_rows p.id upd d).0 j
            (laws.constraints d) number (laws.update_rows p.id m upd d number) found)

    pub set-mark :
        (at : Time) (d : D)
        → mark (set_checkpoint db partner at d).1
          ≡ moved_mark (kept_at at) (mark d) (set_checkpoint db partner at d).0
    unfolding set_checkpoint
    set-mark at d =
        upsert-mark db laws partner partner (laws.stored at) (laws.tables d)
          (laws.tables (db.upsert_checkpoint partner at d).1) (db.upsert_checkpoint partner at d).0
          (laws.upsert_checkpoint partner at d)
        ∙ rw (eq_refl partner) refl

    pub upsert-rows :
        (at : Time) (t t' : Tables) (r : Result (Unit {0})) (j : String)
        → UpsertAnswer partner at t t' r
        → find j t'.rows ≡ find j t.rows
    upsert-rows at t t' (ok _) j h = ap (λ (x : Tables). find j x.rows) h
    upsert-rows at t t' (err e) j h = same-view t t' j h

    -- The store on a database is a lawful store.
    unfoldable pub postgres-StoreLaws : StoreLaws (postgres_store db partner)
    unfolding helpper_by_directory_id create_helpper enabled_helppers checkpoint set_checkpoint
    postgres-StoreLaws = record {
      view = view db laws;
      mark = mark;
      kept = kept_at;
      kept_le = λ at. omega (arith, reading_le (laws.stored at), laws.stored_le at);
      stamp = laws.now;
      lookup_view = λ k d j. same-view _ _ j (laws.select_helpper k d).1;
      lookup_mark = λ k d. same-mark _ _ (laws.select_helpper k d).1;
      lookup_answer = λ k d.
          lookup-LookupAnswer db laws k (laws.tables d).rows (db.select_helpper k d).0
            (laws.select_helpper k d).0;
      create_view = λ n d j.
          create-view db laws n (laws.tables d) _ (db.insert_helpper n d).0 j
            (laws.insert_helpper n d);
      create_answer = λ n d.
          create-CreateAnswer db laws n (laws.tables d) _ (db.insert_helpper n d).0
            (laws.insert_helpper n d) (laws.constraints (db.insert_helpper n d).1);
      create_mark = λ n d.
          insert-mark n (laws.tables d) _ (db.insert_helpper n d).0 (laws.insert_helpper n d);
      update_view = λ k p upd d j found. number-view k p upd d j found;
      update_mark = λ i upd d. guarded-mark i upd d (atoi i) refl;
      enabled_view = λ d j. same-view _ _ j (laws.select_enabled d).1;
      enabled_mark = λ d. same-mark _ _ (laws.select_enabled d).1;
      enabled_answer = λ d j.
          list-ListAnswer db laws (laws.tables d).rows (db.select_enabled d).0 j
            (laws.constraints d) (laws.select_enabled d).0;
      checkpoint_view = λ d j. same-view _ _ j (laws.select_checkpoint partner d).1;
      checkpoint_mark = λ d. same-mark _ _ (laws.select_checkpoint partner d).1;
      checkpoint_answer = λ d.
          mark-sync db laws _ (db.select_checkpoint partner d).0
            (laws.select_checkpoint partner d).0;
      set_checkpoint_view = λ at d j.
          upsert-rows (laws.stored at) (laws.tables d) _ (db.upsert_checkpoint partner at d).0 j
            (laws.upsert_checkpoint partner at d);
      set_checkpoint_mark = set-mark;
    }

    -- Writing the checkpoint of one partner sets it to what the database stores of the instant, or leaves it on an
    -- error, and changes that of no other partner.
    pub set_checkpoint-partners :
        (other : String) (at : Time) (d : D)
        → mark_in (lookup other (laws.tables (set_checkpoint db partner at d).1).sync_state) ≡ (
            if partner =ₛ other
            then moved_mark (kept_at at) (mark d) (set_checkpoint db partner at d).0
            else mark_in (lookup other (laws.tables d).sync_state))
    unfolding set_checkpoint
    set_checkpoint-partners other at d =
        upsert-mark db laws partner other (laws.stored at) (laws.tables d)
          (laws.tables (db.upsert_checkpoint partner at d).1) (db.upsert_checkpoint partner at d).0
          (laws.upsert_checkpoint partner at d)
        ∙ ground (arith, eq_iff partner other)
