-- ===== src/Directory/Spec/Replay.antt =====
-- Records that are handled a second time, in the specification of Directory/Spec.
use helppi_scim_go.Prelude.{
  String, ◌=ₛ◌, Option, none, some, List, [], ◌∷◌, ◌++◌, ◌≡◌, refl, arith, ap, ◌∙◌, sym,
  if◌then◌else◌,
}
use helppi_scim_go.Scim.Types.{User}
use helppi_scim_go.Directory.Apply.{validate, is_active}
use helppi_scim_go.Directory.Spec.{Account, wanted, step, steps}

-- What a list of records makes of an account: nothing, an account whatever was there, or one where there was one.
data Effect : Type 0 where
  keeps : Effect
  sets : Account → Effect
  amends : Account → Effect

abbrev run : Effect → Option Account → Option Account
run keeps a = a
run (sets c) a = some c
run (amends c) none = none
run (amends c) (some x) = some c

-- One effect and then another.
abbrev both : Effect → Effect → Effect
both e keeps = e
both e (sets c) = sets c
both keeps (amends c) = amends c
both (sets d) (amends c) = sets c
both (amends d) (amends c) = amends c

run-both : (e f : Effect) (a : Option Account) → run (both e f) a ≡ run f (run e a)
run-both e keeps a = refl
run-both e (sets c) a = refl
run-both keeps (amends c) a = refl
run-both (sets d) (amends c) a = refl
run-both (amends d) (amends c) none = refl
run-both (amends d) (amends c) (some x) = refl

run_twice : (e : Effect) (a : Option Account) → run e (run e a) ≡ run e a
run_twice keeps a = refl
run_twice (sets c) a = refl
run_twice (amends c) none = refl
run_twice (amends c) (some x) = refl

abbrev effect : User → String → Effect
effect u j =
    if validate u =ₛ ""
    then (if u.id =ₛ j
        then (if is_active u.active then sets (wanted u) else amends (wanted u))
        else keeps)
    else keeps

step-effect : (u : User) (j : String) (a : Option Account) → step u j a ≡ run (effect u j) a
step-effect u j none = ground arith
step-effect u j (some x) = ground arith

abbrev effects : List User → String → Effect
effects [] j = keeps
effects (u ∷ us) j = both (effect u j) (effects us j)

steps-effects :
    (us : List User) (j : String) (a : Option Account) → steps us j a ≡ run (effects us j) a
steps-effects [] j a = refl
steps-effects (u ∷ us) j a =
    steps-effects us j (step u j a)
    ∙ ap (run (effects us j)) (step-effect u j a)
    ∙ sym (run-both (effect u j) (effects us j) a)

steps_twice :
    (us : List User) (j : String) (a : Option Account) → steps us j (steps us j a) ≡ steps us j a
steps_twice us j a =
    steps-effects us j (steps us j a)
    ∙ ap (run (effects us j)) (steps-effects us j a)
    ∙ run_twice (effects us j) a
    ∙ sym (steps-effects us j a)

pub steps-append :
    (us vs : List User) (j : String) (a : Option Account)
    → steps (us ++ vs) j a ≡ steps vs j (steps us j a)
steps-append [] vs j a = refl
steps-append (u ∷ us) vs j a = steps-append us vs j (step u j a)

-- Records of which the first ones were handled before make of the account what they make of the one before those.
pub steps_again :
    (us vs : List User) (j : String) (a : Option Account)
    → steps (us ++ vs) j (steps us j a) ≡ steps (us ++ vs) j a
steps_again us vs j a =
    steps-append us vs j (steps us j a)
    ∙ ap (steps vs j) (steps_twice us j a)
    ∙ sym (steps-append us vs j a)
