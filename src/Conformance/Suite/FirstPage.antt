-- ===== src/Conformance/Suite/FirstPage.antt =====
-- What the check of the credential has read when it has not failed (conformance/checks.go, lines 62 to 96).
use helppi_scim_go.Prelude.{Bool, true, false, some, List, ◌≡◌, refl, arith, pos, if◌then◌else◌}
use helppi_scim_go.Exec.{Result, ok, err, is_credential}
use helppi_scim_go.Scim.Types.{Time, User, ListResponse, users, everything}
use helppi_scim_go.Conformance.Report.{fail, Options}
use helppi_scim_go.Conformance.Runner.{Directory, Runner, fresh_runner, add}
use helppi_scim_go.Conformance.Adds.{fails}
use helppi_scim_go.Conformance.Criteria.{credential_accepted}
use helppi_scim_go.Conformance.PhaseOne.{Texts, check_credential, credential_page, credential_users}
use helppi_scim_go.Conformance.Suite.Page.{one_more}

module _ {D : Type 0} (dir : Directory D) (texts : Texts) (now : D → Time) (opts : Options) where
  -- The first page, and the runner that has read it.
  abbrev pub HasRead : D → Runner D → ListResponse → List User → Type 0
  HasRead d w p us =
      ((dir.page everything (pos 1) opts.page_size d).0 ≡ ok p)
      × (users p ≡ ok us)
      × (w.page ≡ some p)
      × (w.users ≡ us)
      × (w.blocked ≡ "")

  abbrev decoded : D → D → ListResponse → Result (List User) → Runner D
  decoded d d' p r =
      credential_users dir texts now opts r (record (fresh_runner d) { dir = d'; page = some p })

  users-HasRead :
      (d d' : D) (p : ListResponse) (r : Result (List User))
      → users p ≡ r
      → (dir.page everything (pos 1) opts.page_size d).0 ≡ ok p
      → fails (decoded d d' p r).cases ≡ 0
      → (us : List User) × HasRead d (decoded d d' p r) p us
  unfolding credential_users fails
  users-HasRead d d' p (err e) q a h = ground arith
  users-HasRead d d' p (ok us) q a h = (us, (a, q, refl, refl, refl))

  abbrev answered : D → D → Result ListResponse → Runner D
  answered d d' r = credential_page dir texts now opts r (record (fresh_runner d) { dir = d' })

  one_more-ne : {A : Type 0} (w : Runner D) → fails (add credential_accepted fail w).cases ≡ 0 → A
  one_more-ne w h = ground (arith, one_more dir texts now opts credential_accepted w)

  err-fails :
      {A : Type 0} (b : Bool) (v w : Runner D)
      → fails (if b then add credential_accepted fail v else add credential_accepted fail w).cases
        ≡ 0
      → A
  err-fails true v w h = one_more-ne v h
  err-fails false v w h = one_more-ne w h

  page-HasRead :
      (d d' : D) (r : Result ListResponse)
      → (dir.page everything (pos 1) opts.page_size d).0 ≡ r
      → fails (answered d d' r).cases ≡ 0
      → (p : ListResponse) × (us : List User) × HasRead d (answered d d' r) p us
  unfolding credential_page
  page-HasRead d d' (ok p) a h =
      let (us, read) = users-HasRead d d' p (users p) refl a h in (p, us, read)
  page-HasRead d d' (err e) a h =
      err-fails (is_credential e)
        (record (fresh_runner d) { dir = d'; blocked = "the credential was rejected" })
        (record (fresh_runner d) { dir = d'; blocked = "the directory could not be read" }) h

  pub credential-HasRead :
      (d : D)
      → fails (check_credential dir texts now opts (fresh_runner d)).cases ≡ 0
      → (p : ListResponse) × (us : List User) × HasRead d
          (check_credential dir texts now opts (fresh_runner d))
          p
          us
  unfolding check_credential
  credential-HasRead d h =
      let (r, d') = dir.page everything (pos 1) opts.page_size d in page-HasRead d d' r refl h
