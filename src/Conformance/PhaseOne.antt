-- ===== src/Conformance/PhaseOne.antt =====
-- conformance/checks.go, lines 61 to 293: the checks on the first page and on the records in it, and the
-- pagination.
use helppi_scim_go.Prelude.{
  ℕ, ◌+◌, String, ◌+ₛ◌, ◌=ₛ◌, Bool, true, false, not, ◌&&◌, ◌||◌, Option, none, some, List, [], ◌∷◌,
  length, contains, ltb, ◌==◌, if◌then◌else◌, pos, ltb_ℤ, ◌==ℤ◌,
}
use helppi_scim_go.Exec.{Result, ok, err, is_credential}
use helppi_scim_go.Scim.Types.{User, Email, Time, ListResponse, everything, users}
use helppi_scim_go.Directory.Walk.{is_zero}
use helppi_scim_go.Conformance.Criteria.{
  credential_accepted, list_responses, stable_ids, active_flag, aliases, usable_watermark,
  honored_paging,
}
use helppi_scim_go.Conformance.Report.{pass, fail, skip, Criterion, Options}
use helppi_scim_go.Conformance.Runner.{Directory, Runner, add, ask, unblocked, reading_page}

-- Functions of Go's package `strings` that the checks call.
pub record Texts : Type 0 where
  pub to_lower : String → String
  pub trim_space : String → String

abbrev first_or_zero : List User → User → User
first_or_zero [] u = u
first_or_zero (v ∷ us) u = v

unfoldable pub newest_from : Time → List User → Time
newest_from t [] = t
newest_from t (u ∷ us) = newest_from (if ltb t u.last_modified then u.last_modified else t) us

-- No id is blank, and none is in `seen` or occurs twice.
unfoldable pub ids_stable : Texts → List String → List User → Bool
unfolding contains
ids_stable texts seen [] = true
ids_stable texts seen (u ∷ us) =
    not (texts.trim_space u.id =ₛ "")
    && not (contains u.id seen)
    && ids_stable texts (u.id ∷ seen) us

abbrev pub has_active : Option Bool → Bool
has_active none = false
has_active (some _) = true

unfoldable pub all_active : List User → Bool
all_active [] = true
all_active (u ∷ us) = has_active u.active && all_active us

unfoldable pub all_dated : List User → Bool
all_dated [] = true
all_dated (u ∷ us) = not (is_zero u.last_modified) && all_dated us

-- `strings.HasSuffix`
unfoldable pub has_suffix : String → String → Bool
has_suffix String.[] t = t =ₛ ""
has_suffix (String.◌∷◌ c s) t = String.◌∷◌ c s =ₛ t || has_suffix s t

-- `strings.HasPrefix(s, "@")`
abbrev has_at : String → Bool
has_at String.[] = false
has_at (String.◌∷◌ c s) = String.◌∷◌ c "" =ₛ "@"

-- `"@" + strings.TrimPrefix(domain, "@")`
unfoldable pub suffix_of : String → String
suffix_of domain = if has_at domain then domain else "@" +ₛ domain

unfoldable pub all_emails : Texts → String → List Email → Bool
unfolding has_suffix
all_emails texts suffix [] = true
all_emails texts suffix (e ∷ es) =
    has_suffix (texts.to_lower e.value) suffix && all_emails texts suffix es

unfoldable pub all_aliases : Texts → String → List User → Bool
unfolding has_suffix all_emails
all_aliases texts suffix [] = true
all_aliases texts suffix (u ∷ us) =
    has_suffix (texts.to_lower u.user_name) suffix
    && all_emails texts suffix u.emails
    && all_aliases texts suffix us

module _ {D : Type 0} (dir : Directory D) (texts : Texts) (now : D → Time) (opts : Options) where
  abbrev Check : Type 0
  Check = Runner D → Runner D

  -- `checkCredential`, on the records of the first page.
  unfoldable pub credential_users : Result (List User) → Check
  unfolding newest_from
  credential_users (err e) w =
      add credential_accepted fail
        (record w { blocked = "the directory returned records that cannot be decoded" })
  credential_users (ok us) w = add credential_accepted pass (record w {
    users = us;
    sample = first_or_zero us w.sample;
    newest = newest_from w.newest us;
  })

  unfoldable pub credential_page : Result ListResponse → Check
  unfolding credential_users users
  credential_page (err e) w =
      if is_credential e
      then add credential_accepted fail (record w { blocked = "the credential was rejected" })
      else add credential_accepted fail (record w { blocked = "the directory could not be read" })
  credential_page (ok p) w = credential_users (users p) (record w { page = some p })

  unfoldable pub check_credential : Check
  unfolding credential_page
  check_credential w =
      let (r, w') = ask (dir.page everything (pos 1) opts.page_size) w in credential_page r w'

  unfoldable pub check_envelope : Check
  check_envelope = unblocked list_responses (
      reading_page (λ p w.
        if ltb_ℤ p.total_results (pos (length p.resources))
        then add list_responses fail w
        else if ltb 0 (length p.resources) && not (p.start_index ==ℤ pos 1)
        then add list_responses fail w
        else add list_responses pass w))

  -- The checks on the records of the first page: skipped where there is none.
  abbrev pub on_records : Criterion → (List User → Bool) → Check
  on_records c test w =
      if length w.users == 0
      then add c skip w
      else if test w.users
      then add c pass w
      else add c fail w

  unfoldable pub check_stable_ids : Check
  unfolding ids_stable
  check_stable_ids = unblocked stable_ids (on_records stable_ids (ids_stable texts []))

  unfoldable pub check_active_flag : Check
  unfolding all_active
  check_active_flag = unblocked active_flag (on_records active_flag all_active)

  unfoldable pub check_alias : Check
  unfolding all_aliases suffix_of
  check_alias = unblocked aliases (λ w.
      if opts.alias_domain =ₛ ""
      then add aliases skip w
      else on_records aliases (all_aliases texts (suffix_of opts.alias_domain)) w)

  -- `time.Hour`
  abbrev pub hour : ℕ
  hour = 3600000000000

  unfoldable pub check_meta : Check
  unfolding all_dated
  check_meta = unblocked usable_watermark (λ w.
      if length w.users == 0
      then add usable_watermark skip w
      else if not (all_dated w.users)
      then add usable_watermark fail w
      else if ltb (now w.dir + hour) w.newest
      then add usable_watermark fail w
      else add usable_watermark pass w)

  -- `checkPagination`, on the second page.
  unfoldable pub second_users : Result (List User) → Check
  second_users (err e) w = add honored_paging fail w
  second_users (ok []) w = add honored_paging fail w
  second_users (ok (u ∷ us)) w =
      if u.id =ₛ w.sample.id then add honored_paging fail w else add honored_paging pass w

  unfoldable pub second_page : Result ListResponse → Check
  unfolding second_users users
  second_page (err e) w = add honored_paging fail w
  second_page (ok p) w = second_users (users p) w

  unfoldable pub check_pagination : Check
  unfolding second_page
  check_pagination = unblocked honored_paging (
      reading_page (λ p w.
        if ltb_ℤ p.total_results (pos 2)
        then add honored_paging skip w
        else if ltb_ℤ opts.page_size (pos (length p.resources))
        then add honored_paging fail w
        else let (r, w') = ask (dir.page everything (pos 2) opts.page_size) w in second_page r w'))
