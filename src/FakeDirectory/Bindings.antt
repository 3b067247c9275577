-- ===== src/FakeDirectory/Bindings.antt =====
-- The external ids of the records, and the map from them to their owners (scimtest/scimtest.go, lines 69 to 80 and 290
-- to 337).
use helppi_scim_go.Prelude.{
  String, ◌=ₛ◌, ◌+ₛ◌, Bool, true, false, not, ◌&&◌, Option, none, some, List, [], ◌∷◌, ◌≡◌, refl,
  sym, ap, ◌∙◌, arith, All, eq_iff, eq_refl, if◌then◌else◌, Bool-cases, inl, inr,
}
use helppi_scim_go.Scim.Types.{User, PatchOp, Operation}
use helppi_scim_go.FakeDirectory.State.{Directory, without, set, lookup, user}
use helppi_scim_go.FakeDirectory.Answers.{Call, Reply, list, get}
use helppi_scim_go.FakeDirectory.Writes.{
  released, stamped, rewritten, taken_by_other, text_of, write, write_all, answer, known_patch,
  decoded_patch, patch,
}
use helppi_scim_go.FakeDirectory.Handler.{
  handle, authorized, routed, counted, on_user, cut_prefix, trim_prefix, served_or, token,
}

-- The map has the external id of a record, if it has one, with the record's own id.
abbrev pub IsBound : List (String × String) → User → Type 0
IsBound m u = (u.external_id =ₛ "") ≡ false → lookup u.external_id m ≡ some u.id

abbrev pub AllBound : Directory → Type 0
AllBound d = All (IsBound d.bound) d.users

lookup-without :
    (k j : String) (m : List (String × String))
    → (k =ₛ j) ≡ false
    → lookup j (without k m) ≡ lookup j m
unfolding lookup without
lookup-without k j [] h = refl
lookup-without k j ((i, v) ∷ m) h =
    ground (arith, lookup-without k j m h, eq_iff i k, eq_iff i j, eq_iff k j)

pub lookup-set_same : (k v : String) (m : List (String × String)) → lookup k (set k v m) ≡ some v
unfolding lookup
lookup-set_same k v m = ground (arith, eq_refl k)

pub lookup-set_other :
    (k v j : String) (m : List (String × String))
    → (k =ₛ j) ≡ false
    → lookup j (set k v m) ≡ lookup j m
unfolding lookup
lookup-set_other k v j m h = ground (arith, lookup-without k j m h)

lookup-released :
    (id value k owner : String) (m : List (String × String))
    → lookup k m ≡ some owner
    → (owner =ₛ id) ≡ false
    → lookup k (released id value m) ≡ some owner
unfolding lookup released
lookup-released id value k owner [] h e = ground arith
lookup-released id value k owner ((j, o) ∷ m) h e =
    ground (arith, lookup-released id value k owner m)

-- A record of another identity keeps its binding.
write-other :
    (id value : String) (m : List (String × String)) (u : User)
    → taken_by_other id (lookup value m) ≡ false
    → (u.id =ₛ id) ≡ false
    → IsBound m u
    → IsBound (set value id (released id value m)) u
write-other id value m u free other bound named = elim (Bool-cases (value =ₛ u.external_id)) [
  | inl e ↦ absurd (
      let owned : lookup value m ≡ some u.id =
        ap (λ k. lookup k m) ((eq_iff value u.external_id).0 e) ∙ bound named in
      let taken : taken_by_other id (lookup value m) ≡ not (u.id =ₛ id) =
        ap (taken_by_other id) owned in
      ground arith)
  | inr e ↦
      lookup-set_other value id u.external_id (released id value m) e
      ∙ lookup-released id value u.external_id u.id m (bound named) other
]

-- A record of the identity that is written is bound by the write.
write-own :
    (id value : String) (m : List (String × String)) (u : User)
    → (u.id =ₛ id) ≡ true
    → IsBound (set value id (released id value m)) (stamped value u)
write-own id value m u own named =
    lookup-set_same value id (released id value m) ∙ ap some (sym ((eq_iff u.id id).0 own))

write-one :
    (b : Bool) (id value : String) (m : List (String × String)) (u : User)
    → (u.id =ₛ id) ≡ b
    → taken_by_other id (lookup value m) ≡ false
    → IsBound m u
    → IsBound (set value id (released id value m)) (if b then stamped value u else u)
write-one true id value m u e free bound = write-own id value m u e
write-one false id value m u e free bound = write-other id value m u free e bound

rewritten-AllBound :
    (id value : String) (m : List (String × String)) (us : List User)
    → taken_by_other id (lookup value m) ≡ false
    → All (IsBound m) us
    → All (IsBound (set value id (released id value m))) (rewritten id value us)
unfolding rewritten
rewritten-AllBound id value m [] free bound = tt
rewritten-AllBound id value m (u ∷ us) free (b, bs) =
    (write-one (u.id =ₛ id) id value m u refl free b, rewritten-AllBound id value m us free bs)

write-AllBound :
    (id value : String) (d : Directory)
    → taken_by_other id (lookup value d.bound) ≡ false
    → AllBound d
    → AllBound (write id value d)
unfolding write
write-AllBound id value d free bound = rewritten-AllBound id value d.bound d.users free bound

either-AllBound :
    {A : Type 0} (b t : Bool) (r s : A) (d : Directory) (x : A × Directory)
    → AllBound d
    → (t ≡ false → AllBound x.1)
    → AllBound (if b then (r, d) else if t then (s, d) else x).1
either-AllBound true t r s d x bound h = bound
either-AllBound false true r s d x bound h = bound
either-AllBound false false r s d x bound h = h refl

write_all-AllBound :
    (id : String) (os : List Operation) (d : Directory)
    → AllBound d
    → AllBound (write_all id os d).1
unfolding write_all
write_all-AllBound id [] d bound = bound
write_all-AllBound id (o ∷ os) d bound =
    either-AllBound (not (o.path =ₛ "externalId"))
      (taken_by_other id (lookup (text_of o.value) d.bound)) _ _ d
      (write_all id os (write id (text_of o.value) d)) bound
      (λ free.
        write_all-AllBound id os (write id (text_of o.value) d)
          (write-AllBound id (text_of o.value) d free bound))

answer-AllBound :
    (id : String) (x : Option Reply × Directory) → AllBound x.1 → AllBound (answer id x).1
answer-AllBound id (some r, d) bound = bound
answer-AllBound id (none, d) bound = bound

known-AllBound :
    (id : String) (op : PatchOp) (o : Option User) (d : Directory)
    → AllBound d
    → AllBound (known_patch id op o d).1
known-AllBound id op none d bound = bound
known-AllBound id op (some u) d bound =
    answer-AllBound id (write_all id op.operations d) (write_all-AllBound id op.operations d bound)

decoded-AllBound :
    (id : String) (body : Option PatchOp) (d : Directory)
    → AllBound d
    → AllBound (decoded_patch id body d).1
decoded-AllBound id none d bound = bound
decoded-AllBound id (some op) d bound = known-AllBound id op (user id d) d bound

if-AllBound :
    {A : Type 0} (b : Bool) (x y : A × Directory)
    → AllBound x.1
    → AllBound y.1
    → AllBound (if b then x else y).1
if-AllBound true x y h k = h
if-AllBound false x y h k = k

on_user-AllBound :
    (o : Option String) (c : Call) (d : Directory) → AllBound d → AllBound (on_user o c d).1
unfolding patch
on_user-AllBound none c d bound = bound
on_user-AllBound (some id) c d bound =
    if-AllBound (c.method =ₛ "GET") (get id d, d) _ bound
      (if-AllBound (c.method =ₛ "PATCH") (patch id c d) _ (decoded-AllBound id c.body d bound)
        bound)

routed-AllBound :
    (path : String) (c : Call) (d : Directory) → AllBound d → AllBound (routed path c d).1
unfolding routed
routed-AllBound path c d bound =
    if-AllBound (c.method =ₛ "GET" && path =ₛ "Users") (list c d, d) _ bound
      (if-AllBound (c.method =ₛ "GET" && path =ₛ "ServiceProviderConfig") _
        (on_user (cut_prefix path "Users/") c d) bound
        (on_user-AllBound (cut_prefix path "Users/") c d bound))

served-AllBound :
    (o : Option Reply) (c : Call) (d : Directory) → AllBound d → AllBound (served_or o c d).1
unfolding authorized
served-AllBound (some r) c d bound = bound
served-AllBound none c d bound =
    if-AllBound (not (c.authorization =ₛ "Bearer " +ₛ token)) _
      (routed (trim_prefix c.path "/") c d) bound
      (routed-AllBound (trim_prefix c.path "/") c d bound)

-- A request, whatever it asks for and whatever failure is injected, keeps every record that has an external id bound
-- to its own id in the map from external ids to owners.
pub handle-AllBound : (c : Call) (d : Directory) → AllBound d → AllBound (handle c d).1
unfolding handle
handle-AllBound c d bound = served-AllBound _ c (counted d) bound
