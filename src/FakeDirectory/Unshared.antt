-- ===== src/FakeDirectory/Unshared.antt =====
-- External ids over a run of requests (scimtest/scimtest.go, lines 69 to 80 and 168 to 221).
use helppi_scim_go.Prelude.{
  String, ◌=ₛ◌, Bool, true, false, some, List, [], ◌∷◌, ◌≡◌, refl, sym, ap, ◌∙◌, arith, All,
  All-map, eq_iff, if◌then◌else◌,
}
use helppi_scim_go.Scim.Types.{User}
use helppi_scim_go.FakeDirectory.State.{Directory, set, lookup, bindings, start}
use helppi_scim_go.FakeDirectory.Answers.{Call}
use helppi_scim_go.FakeDirectory.Handler.{handle}
use helppi_scim_go.FakeDirectory.Bindings.{
  IsBound, AllBound, lookup-set_same, lookup-set_other, handle-AllBound,
}

-- Two records with one external id are one identity.
abbrev pub Agree : User → User → Type 0
Agree u v = (u.external_id =ₛ "") ≡ false → u.external_id ≡ v.external_id → u.id ≡ v.id

abbrev pub AreUnshared : List User → Type 0
AreUnshared [] = Unit {0}
AreUnshared (u ∷ us) = All (Agree u) us × AreUnshared us

-- The map once the binding of one more record is in it.
abbrev with_own : User → List (String × String) → List (String × String)
with_own v m = if v.external_id =ₛ "" then m else set v.external_id v.id m

with_own-kept :
    (m : List (String × String)) (u v : User) → IsBound m u → Agree u v → IsBound (with_own v m) u
with_own-kept m u v bound agree named = on_text (v.external_id =ₛ "")
  where
    set_on :
        (b : Bool)
        → (v.external_id =ₛ u.external_id) ≡ b
        → lookup u.external_id (set v.external_id v.id m) ≡ some u.id
    set_on true e =
        let same = (eq_iff v.external_id u.external_id).0 e in
        sym (ap (λ k. lookup k (set v.external_id v.id m)) same)
        ∙ lookup-set_same v.external_id v.id m
        ∙ ap some (sym (agree named (sym same)))
    set_on false e = lookup-set_other v.external_id v.id u.external_id m e ∙ bound named

    on_text :
        (b : Bool) → lookup u.external_id (if b then m else set v.external_id v.id m) ≡ some u.id
    on_text true = bound named
    on_text false = set_on (v.external_id =ₛ u.external_id) refl

with_own-IsBound : (m : List (String × String)) (v : User) → IsBound (with_own v m) v
with_own-IsBound m v named = rw named (lookup-set_same v.external_id v.id m)

bindings-kept :
    (us : List User) (m : List (String × String)) (u : User)
    → IsBound m u
    → All (Agree u) us
    → IsBound (bindings us m) u
unfolding bindings
bindings-kept [] m u bound agree = bound
bindings-kept (v ∷ us) m u bound (a, rest) =
    bindings-kept us (with_own v m) u (with_own-kept m u v bound a) rest

bindings-IsBound :
    (us : List User) (m : List (String × String))
    → AreUnshared us
    → All (IsBound (bindings us m)) us
unfolding bindings
bindings-IsBound [] m unshared = tt
bindings-IsBound (v ∷ us) m (a, unshared) = (
  bindings-kept us (with_own v m) v (with_own-IsBound m v) a,
  bindings-IsBound us (with_own v m) unshared,
)

bound-Agree : (m : List (String × String)) (u v : User) → IsBound m u → IsBound m v → Agree u v
bound-Agree m u v bu bv named same =
    let named_v : (v.external_id =ₛ "") ≡ false = sym (ap (λ k. k =ₛ "") same) ∙ named in
    let both : some u.id ≡ some v.id = sym (bu named) ∙ ap (λ k. lookup k m) same ∙ bv named_v in
    ground arith

bound-AreUnshared :
    (m : List (String × String)) (us : List User) → All (IsBound m) us → AreUnshared us
bound-AreUnshared m [] bound = tt
bound-AreUnshared m (u ∷ us) (b, bs) =
    (All-map (IsBound m) (Agree u) us (λ v h. bound-Agree m u v b h) bs, bound-AreUnshared m us bs)

-- The directory after the requests of a list, one after the other.
unfoldable pub handled : List Call → Directory → Directory
handled [] d = d
handled (c ∷ cs) d = handled cs (handle c d).1

handled-AllBound : (cs : List Call) (d : Directory) → AllBound d → AllBound (handled cs d)
unfolding handled
handled-AllBound [] d bound = bound
handled-AllBound (c ∷ cs) d bound = handled-AllBound cs (handle c d).1 (handle-AllBound c d bound)

-- Where no two records of different identities share an external id when the fake directory starts, none do after any
-- requests, whatever they ask for: a write that would give an external id to a second identity is refused.
pub handled-AreUnshared :
    (users : List User) (cs : List Call)
    → AreUnshared users
    → AreUnshared (handled cs (start users)).users
unfolding start
handled-AreUnshared users cs unshared =
    let d = handled cs (start users) in
    bound-AreUnshared d.bound d.users
      (handled-AllBound cs (start users) (bindings-IsBound users [] unshared))
