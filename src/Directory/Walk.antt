-- ===== src/Directory/Walk.antt =====
-- directory/directory.go, lines 248 to 297: the walk that applies every record of a query and keeps
-- the watermark.
pub mod Refines
pub mod Watermark
pub mod DryRun
pub mod Counters
use helppi_scim_go.Prelude.{
  Bool, not, ◌&&◌, ◌||◌, Option, none, some, ltb, ◌==◌, if◌then◌else◌, pos, ltb_ℤ, leb_ℤ, List, ◌≡◌,
  arith,
}
use helppi_scim_go.Exec.{Exec, Result, ok, err, message}
use helppi_scim_go.Scim.Types.{User, Time, Filter}
use helppi_scim_go.Store.Types.{Store}
use helppi_scim_go.Directory.Types.{Syncer, Session, Before, no_stats}
use helppi_scim_go.Directory.Interface.{Directory, State}
use helppi_scim_go.Directory.Run.{Run, DirectoryLaws}
use helppi_scim_go.Directory.Apply.{apply}

-- What the callback of `walkWith` changes outside the directory: the session, the two local
-- timestamps, and what `observe` gathers, of type `O`.
pub record Walk (T O : Type 0) : Type 0 where
  pub session : Session T
  pub high : Time
  pub earliest_malformed : Time
  pub observed : O

abbrev pub is_zero : Time → Bool
is_zero t = t == 0

abbrev pub Observe : Type 0 → Type 0
Observe O = Option (User → Before → O → O)

abbrev pub observing : {O : Type 0} → Observe O → User → Before → O → O
observing none u r o = o
observing (some f) u r o = f u r o

-- The oldest instant of an unusable record, 0 while there is none.
abbrev pub hold : Time → Time → Time
hold earliest at =
    if is_zero earliest || ltb at earliest then (if is_zero at then earliest else at) else earliest

abbrev pub raise_to : Time → Time → Time
raise_to high at = if ltb high at then at else high

module _ {T O : Type 0} where
  abbrev pub start : Session T → O → Walk T O
  start x o = record {
    session = record x { stats = no_stats };
    high = 0;
    earliest_malformed = 0;
    observed = o;
  }

  -- The watermark that a completed walk returns.
  unfoldable pub watermark : Walk T O → Time
  watermark v =
      if not (is_zero v.earliest_malformed) && ltb v.earliest_malformed v.high
      then v.earliest_malformed
      else v.high

module _ {D T O : Type 0} (syncer : Syncer) (st : Store T) (dir : Directory D)
    (obs : Observe O) where
  -- The callback after `apply` has returned without an error.
  unfoldable pub after_apply : User → Before → Exec (State D (Walk T O)) (Unit {0})
  after_apply u r w =
      let v = record w.rest { observed = observing obs u r w.rest.observed } in
      if r.malformed
      then (let held = record w {
        rest = record v { earliest_malformed = hold v.earliest_malformed u.last_modified };
      } in
          if leb_ℤ (pos 0) syncer.max_malformed
            && ltb_ℤ syncer.max_malformed (pos w.rest.session.stats.malformed)
          then (err (message "the directory feed looks broken"), held)
          else (ok tt, held))
      else (ok tt, record w { rest = record v { high = raise_to v.high u.last_modified } })

  unfoldable pub after_result : User → Result Before → Exec (State D (Walk T O)) (Unit {0})
  unfolding after_apply
  after_result u (ok r) w = after_apply u r w
  after_result u (err e) w = (err e, w)

  -- The callback of `walkWith`.
  unfoldable pub visit : User → Exec (State D (Walk T O)) (Unit {0})
  unfolding after_result
  visit u w =
      let (r, w') = apply syncer st dir u (record { dir = w.dir; rest = w.rest.session }) in
      after_result u r (record { dir = w'.dir; rest = record w.rest { session = w'.rest } })

  unfoldable pub finish :
      Result (Unit {0}) → State D (Walk T O) → Result Time × O × State D (Session T)
  unfolding watermark
  finish (ok _) w =
      (ok (watermark w.rest), w.rest.observed, record { dir = w.dir; rest = w.rest.session })
  finish (err e) w = (err e, w.rest.observed, record { dir = w.dir; rest = w.rest.session })

  -- The walk up to its end: what `ListUsers` returns, in the state of the callback.
  abbrev pub listing : Filter → O → State D (Session T) → Result (Unit {0}) × State D (Walk T O)
  listing filter o w =
      dir.list_users (Walk T O) filter syncer.page_size visit
        (record { dir = w.dir; rest = start w.rest o })

  -- `walkWith`: the watermark or the error, what `observe` gathered, and the state after it.
  unfoldable pub walk_with :
      Filter → O → State D (Session T) → Result Time × O × State D (Session T)
  unfolding finish
  walk_with filter o w = let (r, w') = listing filter o w in finish r w'

  -- The records that a walk delivers: those on which it runs the callback, in order.
  abbrev pub Delivered : DirectoryLaws dir → Filter → O → State D (Session T) → List User → Type 0
  Delivered d filter o w us =
      Run d.Reads visit us (record { dir = w.dir; rest = start w.rest o }) (listing filter o w).0
        (listing filter o w).1

  -- A walk that succeeds has run to its end, and returns the watermark.
  pub walk_with-ok :
      (filter : Filter) (o : O) (w : State D (Session T)) (m : Time)
      → (walk_with filter o w).0 ≡ ok m
      → ((listing filter o w).0 ≡ ok tt) × (m ≡ watermark (listing filter o w).1.rest)
  unfolding walk_with
  walk_with-ok filter o w m h = ground arith

  -- However it ends, it hands on the session of its end.
  pub session-walk_with :
      (filter : Filter) (o : O) (w : State D (Session T))
      → ((walk_with filter o w).2.rest ≡ (listing filter o w).1.rest.session)
        × ((walk_with filter o w).2.dir ≡ (listing filter o w).1.dir)
        × ((walk_with filter o w).1 ≡ (listing filter o w).1.rest.observed)
  unfolding walk_with
  session-walk_with filter o w = ground arith
