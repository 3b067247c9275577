-- ===== src/Store/Laws.antt =====
-- What store/store.go and docs/IMPLEMENTING_STORE.md ask of a store with a single writer, in terms of
-- two views of its contents: the helpper under a directory id, and the checkpoint.
use helppi_scim_go.Prelude.{
  String, ◌=ₛ◌, Bool, true, false, Option, none, some, List, [], ◌∷◌, map, ◌≡◌, ◌≢◌, ◌≤◌, contains,
  if◌then◌else◌,
}
use helppi_scim_go.Exec.{Result, ok, err, is_not_found, is_already_exists}
use helppi_scim_go.Scim.Types.{Time}
use helppi_scim_go.Store.Types.{Store, Helpper, NewHelpper, HelpperUpdate}

abbrev pub is_enabled : Option Helpper → Bool
is_enabled none = false
is_enabled (some p) = p.enabled

-- A helpper after an update that the store stamped with an instant.
abbrev pub amended : Helpper → HelpperUpdate → Time → Helpper
amended p upd at = record p {
  enabled = upd.enabled;
  display_name = upd.display_name;
  login = upd.login;
  updated_at = at;
}

-- What a lookup may answer where the view of the key is `v`; any error but `ErrNotFound` is a fault.
abbrev pub LookupAnswer : Option Helpper → Result Helpper → Type 0
LookupAnswer v (ok p) = v ≡ some p
LookupAnswer v (err e) = is_not_found e ≡ true → v ≡ none

-- What a create may answer where the view of its key is `v`.
abbrev pub CreateAnswer : NewHelpper → Option Helpper → Result Helpper → Type 0
CreateAnswer n v (ok p) =
    (v ≡ none)
    × (p.directory_id ≡ n.directory_id)
    × (p.login ≡ n.login)
    × (p.display_name ≡ n.display_name)
    × (p.enabled ≡ true)
    × ((p.id =ₛ "") ≡ false)
CreateAnswer n v (err e) = is_already_exists e ≡ true → v ≢ none

-- The view of the key `j` after a create, from the view before and the answer.
abbrev pub created_view : NewHelpper → String → Option Helpper → Result Helpper → Option Helpper
created_view n j v (ok p) = if n.directory_id =ₛ j then some p else v
created_view n j v (err e) = v

-- The view of the key `j` after an update of the helpper `p` under the key `k`.
abbrev pub updated_view :
    String → Helpper → String → Option Helpper → Result (Unit {0}) → Option Helpper
updated_view k p j v (ok _) = if k =ₛ j then some p else v
updated_view k p j v (err e) = v

-- The list of enabled helppers names the key `j` exactly when its view is an enabled helpper.
abbrev pub ListAnswer : String → Option Helpper → Result (List Helpper) → Type 0
ListAnswer j v (ok ps) = contains j (map (λ p. p.directory_id) ps) ≡ is_enabled v
ListAnswer j v (err e) = Unit

-- Every helpper of a list is the view of its key, and no key stands twice.
abbrev pub AreViews : (String → Option Helpper) → List Helpper → Type 0
AreViews view [] = Unit
AreViews view (p ∷ ps) =
    (view p.directory_id ≡ some p)
    × (contains p.directory_id (map (λ q. q.directory_id) ps) ≡ false)
    × AreViews view ps

abbrev pub CheckpointAnswer : Time → Result Time → Type 0
CheckpointAnswer m (ok at) = at ≡ m
CheckpointAnswer m (err e) = Unit

abbrev pub moved_mark : Time → Time → Result (Unit {0}) → Time
moved_mark at m (ok _) = at
moved_mark at m (err e) = m

pub record StoreLaws {T : Type 0} (st : Store T) : Type 0 where
  pub view : T → String → Option Helpper
  pub mark : T → Time
  -- What the store keeps of an instant, which may be less precise.
  pub kept : Time → Time
  pub kept_le : (at : Time) → kept at ≤ at
  -- The instant that an update writes.
  pub stamp : T → Time
  pub lookup_view :
      (k : String) (t : T) (j : String) → view (st.helpper_by_directory_id k t).1 j ≡ view t j
  pub lookup_mark : (k : String) (t : T) → mark (st.helpper_by_directory_id k t).1 ≡ mark t
  pub lookup_answer :
      (k : String) (t : T) → LookupAnswer (view t k) (st.helpper_by_directory_id k t).0
  pub create_view :
      (n : NewHelpper) (t : T) (j : String)
      → view (st.create_helpper n t).1 j ≡ created_view n j (view t j) (st.create_helpper n t).0
  pub create_answer :
      (n : NewHelpper) (t : T) → CreateAnswer n (view t n.directory_id) (st.create_helpper n t).0
  pub create_mark : (n : NewHelpper) (t : T) → mark (st.create_helpper n t).1 ≡ mark t
  pub update_view :
      (k : String) (p : Helpper) (upd : HelpperUpdate) (t : T) (j : String)
      → view t k ≡ some p
      → view (st.update_helpper p.id upd t).1 j
        ≡ updated_view k (amended p upd (stamp t)) j (view t j) (st.update_helpper p.id upd t).0
  pub update_mark :
      (i : String) (upd : HelpperUpdate) (t : T) → mark (st.update_helpper i upd t).1 ≡ mark t
  pub enabled_view : (t : T) (j : String) → view (st.enabled_helppers t).1 j ≡ view t j
  pub enabled_mark : (t : T) → mark (st.enabled_helppers t).1 ≡ mark t
  pub enabled_answer : (t : T) (j : String) → ListAnswer j (view t j) (st.enabled_helppers t).0
  pub checkpoint_view : (t : T) (j : String) → view (st.checkpoint t).1 j ≡ view t j
  pub checkpoint_mark : (t : T) → mark (st.checkpoint t).1 ≡ mark t
  pub checkpoint_answer : (t : T) → CheckpointAnswer (mark t) (st.checkpoint t).0
  pub set_checkpoint_view :
      (at : Time) (t : T) (j : String) → view (st.set_checkpoint at t).1 j ≡ view t j
  pub set_checkpoint_mark :
      (at : Time) (t : T)
      → mark (st.set_checkpoint at t).1 ≡ moved_mark (kept at) (mark t) (st.set_checkpoint at t).0

-- A store that keeps of an instant at or past its checkpoint one that is not before it either.
abbrev pub KeepsForward : {T : Type 0} (st : Store T) → StoreLaws st → Type 0
KeepsForward {T} st laws = (t : T) (at : Time) → laws.mark t ≤ at → laws.mark t ≤ laws.kept at
