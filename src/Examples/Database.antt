-- ===== src/Examples/Database.antt =====
-- A database with the tables of store/postgres/migrations/0001_init.sql, in memory, and a connection to it. An insert
-- checks the constraints, and fails where one does not hold.
use helppi_scim_go.Prelude.{
  Bool, ℕ, zero, suc, ◌+◌, ◌*◌, ◌/◌, String, true, Option, none, some, List, [], ◌∷◌, ◌++◌, map,
  length, ◌≡◌, refl, ◌∙◌, sym, ap, false, arith, ℤ, itoa, Bool-cases, inl, inr, eq_iff,
  if◌then◌else◌,
}
use helppi_scim_go.Exec.{Result, ok, err, Error, message, atoi, is_not_found, is_already_exists}
use helppi_scim_go.Scim.Types.{Time}
use helppi_scim_go.Store.Types.{Helpper, NewHelpper, HelpperUpdate}
use helppi_scim_go.Store.Memory.Maps.{lookup, insert}
use helppi_scim_go.Store.Postgres.{Database}
use helppi_scim_go.Store.Postgres.Tables.{
  Tables, DatabaseLaws, InsertAnswer, UpdateAnswer, has_key, find, affected, amend, enabled_rows,
  Constrained, Permutes, nothing, keep, Reads,
}
use helppi_scim_go.Store.Postgres.Rows.{find-insert, own-key, key-own}

abbrev pub Base : Type 0
Base = (t : Tables) × Constrained t.rows

abbrev pub empty_base : Base
empty_base = (record { rows = []; sync_state = [] }, tt)

affected-insert :
    (z : ℤ) (p : Helpper) (rows : List Helpper)
    → affected z (rows ++ p ∷ []) ≡ affected z rows + (if has_key z p then 1 else 0)
unfolding affected
affected-insert z p [] = ground arith
affected-insert z p (r ∷ rs) = ground (arith, affected-insert z p rs)

-- A row before one with a free key does not have that key.
free-key :
    (p : Helpper) (n : ℤ) (r : Helpper) (m : ℤ)
    → atoi p.id ≡ some n
    → atoi r.id ≡ some m
    → has_key n r ≡ false
    → has_key m p ≡ false
free-key p n r m number id free = elim (Bool-cases (has_key m p)) [
  | inl key ↦ absurd (
      let e : n ≡ m = key-own p n m number key in
      let own : has_key n r ≡ true = own-key r n (id ∙ ap some (sym e)) in
      ground (arith, own, free))
  | inr other ↦ other
]

neither : (b : Bool) (m : ℕ) → (if b then 1 else 0) + m ≡ 0 → (b ≡ false) × (m ≡ 0)
neither b m h = ground (arith, h)

pub Constrained-insert :
    (p : Helpper) (n : ℤ) (rows : List Helpper)
    → Constrained rows
    → find p.directory_id rows ≡ none
    → affected n rows ≡ 0
    → atoi p.id ≡ some n
    → Constrained (rows ++ p ∷ [])
unfolding find affected
Constrained-insert p n [] c absent once number = (refl, n, number, refl, tt)
Constrained-insert p n (r ∷ rs) (free, m, id, unique, c) absent once number =
    let (fresh, rest) = neither (has_key n r) (affected n rs) once in
    (
      find-insert p.directory_id p r.directory_id rs refl (ground (arith, absent))
          ∙ ground (
            arith,
            free,
            absent,
            eq_iff p.directory_id r.directory_id,
            eq_iff r.directory_id p.directory_id,
          ),
      m,
      id,
      affected-insert m p rs ∙ rw (free-key p n r m number id fresh) (omega (arith, unique)),
      Constrained-insert p n rs c (ground (arith, absent)) rest number,
    )

find-amend-none :
    (k : String) (z : ℤ) (upd : HelpperUpdate) (at : Time) (rows : List Helpper)
    → find k rows ≡ none
    → find k (amend z upd at rows) ≡ none
unfolding find amend
find-amend-none k z upd at [] h = refl
find-amend-none k z upd at (r ∷ rs) h = ground (arith, h, find-amend-none k z upd at rs)

affected-amend :
    (y z : ℤ) (upd : HelpperUpdate) (at : Time) (rows : List Helpper)
    → affected y (amend z upd at rows) ≡ affected y rows
unfolding affected amend
affected-amend y z upd at [] = refl
affected-amend y z upd at (r ∷ rs) = elim (Bool-cases (has_key z r)) [
  | inl key ↦ rw key (omega (arith, affected-amend y z upd at rs))
  | inr other ↦ rw other (omega (arith, affected-amend y z upd at rs))
]

pub Constrained-amend :
    (z : ℤ) (upd : HelpperUpdate) (at : Time) (rows : List Helpper)
    → Constrained rows
    → Constrained (amend z upd at rows)
unfolding amend
Constrained-amend z upd at [] c = tt
Constrained-amend z upd at (r ∷ rs) (free, n, number, unique, c) =
    let free' = find-amend-none r.directory_id z upd at rs free in
    let unique' = affected-amend n z upd at rs ∙ unique in
    let c' = Constrained-amend z upd at rs c in
    elim (Bool-cases (has_key z r)) [
      | inl key ↦ rw key (free', n, number, unique', c')
      | inr other ↦ rw other (free', n, number, unique', c')
    ]

abbrev violation : Error
violation = message "violates a constraint"

abbrev row : NewHelpper → String → Helpper
row n id = record {
  id = id;
  directory_id = n.directory_id;
  login = n.login;
  display_name = n.display_name;
  enabled = true;
  created_at = 1;
  updated_at = 1;
}

-- An insert under a directory id that is free, with an id.
keyed :
    (n : NewHelpper) (d : Base) (id : String) (m : ℤ)
    → find n.directory_id d.0.rows ≡ none
    → atoi id ≡ some m
    → (a : ℕ) → affected m d.0.rows ≡ a
    → Result (Option Helpper) × Base
keyed n d id m absent number zero once = (
  ok (some (row n id)),
  (
    record d.0 { rows = d.0.rows ++ row n id ∷ [] },
    Constrained-insert (row n id) m d.0.rows d.1 absent once number,
  ),
)
keyed n d id m absent number (suc a) once = (err violation, d)

inserted :
    (n : NewHelpper) (d : Base) (id : String)
    → find n.directory_id d.0.rows ≡ none
    → (o : Option ℤ) → atoi id ≡ o
    → Result (Option Helpper) × Base
unfolding keyed
inserted n d id absent (some m) number = keyed n d id m absent number (affected m d.0.rows) refl
inserted n d id absent none number = (err violation, d)

pub insert_or_nothing :
    (n : NewHelpper) (d : Base) (o : Option Helpper)
    → find n.directory_id d.0.rows ≡ o
    → Result (Option Helpper) × Base
unfolding inserted
insert_or_nothing n d (some p) h = (ok none, d)
insert_or_nothing n d none h =
    let id = itoa (length d.0.rows + 1) in inserted n d id h (atoi id) refl

abbrev micros : Time → Time
micros at = at / 1000 * 1000

abbrev pub update_key : Option ℤ → HelpperUpdate → Base → Result ℕ × Base
update_key none upd d = (err violation, d)
update_key (some z) upd d = (
  ok (affected z d.0.rows),
  (record d.0 { rows = amend z upd 2 d.0.rows }, Constrained-amend z upd 2 d.0.rows d.1),
)

unfoldable pub base_database : Database Base
unfolding insert_or_nothing find affected enabled_rows insert lookup
base_database = record {
  select_helpper = λ k d. (ok (find k d.0.rows), d);
  insert_helpper = λ n d. insert_or_nothing n d (find n.directory_id d.0.rows) refl;
  update_rows = λ i upd d. update_key (atoi i) upd d;
  select_enabled = λ d.
      (ok (record { scans = map (λ p. ok (some p)) (enabled_rows d.0.rows); closing = none }), d);
  select_checkpoint = λ partner d. (ok (lookup partner d.0.sync_state), d);
  upsert_checkpoint = λ partner at d.
      (ok tt, (record d.0 { sync_state = insert partner (micros at) d.0.sync_state }, d.1));
}

keyed-InsertAnswer :
    (n : NewHelpper) (d : Base) (id : String) (m : ℤ) (absent : find n.directory_id d.0.rows ≡ none)
    (number : atoi id ≡ some m) (a : ℕ) (once : affected m d.0.rows ≡ a)
    → let (r, d') = keyed n d id m absent number a once in InsertAnswer n d.0 d'.0 r
unfolding keyed is_not_found is_already_exists
keyed-InsertAnswer n d id m absent number zero once = (absent, refl, refl, refl, refl, refl)
keyed-InsertAnswer n d id m absent number (suc a) once = ((refl, refl), refl)

inserted-InsertAnswer :
    (n : NewHelpper) (d : Base) (id : String) (absent : find n.directory_id d.0.rows ≡ none)
    (o : Option ℤ) (number : atoi id ≡ o)
    → let (r, d') = inserted n d id absent o number in InsertAnswer n d.0 d'.0 r
unfolding inserted is_not_found is_already_exists
inserted-InsertAnswer n d id absent (some m) number =
    keyed-InsertAnswer n d id m absent number (affected m d.0.rows) refl
inserted-InsertAnswer n d id absent none number = ((refl, refl), refl)

pub update-UpdateAnswer :
    (i : String) (z : ℤ) (upd : HelpperUpdate) (d : Base)
    → atoi i ≡ some z
    → let (r, d') = update_key (atoi i) upd d in UpdateAnswer z upd 2 d.0 d'.0 r
update-UpdateAnswer i z upd d h = rw h (refl, refl)

pub insert-InsertAnswer :
    (n : NewHelpper) (d : Base) (o : Option Helpper) (h : find n.directory_id d.0.rows ≡ o)
    → let (r, d') = insert_or_nothing n d o h in InsertAnswer n d.0 d'.0 r
unfolding insert_or_nothing
insert-InsertAnswer n d (some p) h = ((λ e. ground (arith, e, h)), refl)
insert-InsertAnswer n d none h =
    let id = itoa (length d.0.rows + 1) in inserted-InsertAnswer n d id h (atoi id) refl

pub Permutes-refl : (rows : List Helpper) → Permutes rows rows
Permutes-refl [] = nothing
Permutes-refl (r ∷ rs) = keep r (Permutes-refl rs)

pub Reads-all : (rows : List Helpper) → Reads (map (λ p. ok (some p)) rows) none rows
Reads-all [] = refl
Reads-all (r ∷ rs) = (refl, Reads-all rs)

unfoldable pub base-DatabaseLaws : DatabaseLaws base_database
unfolding base_database
base-DatabaseLaws = record {
  tables = λ d. d.0;
  now = λ _. 2;
  stored = micros;
  stored_le = λ at. omega arith;
  constraints = λ d. d.1;
  select_helpper = λ k d. (refl, refl);
  insert_helpper = λ n d. insert-InsertAnswer n d (find n.directory_id d.0.rows) refl;
  update_rows = update-UpdateAnswer;
  select_enabled = λ d. (
    (
      enabled_rows d.0.rows,
      Permutes-refl (enabled_rows d.0.rows),
      Reads-all (enabled_rows d.0.rows),
    ),
    refl,
  );
  select_checkpoint = λ partner d. (refl, refl);
  upsert_checkpoint = λ partner at d. refl;
}
