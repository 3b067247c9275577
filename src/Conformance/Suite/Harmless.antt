-- ===== src/Conformance/Suite/Harmless.antt =====
-- What a run leaves in the directory (conformance/checks.go, lines 407 to 540, and conformance/conformance.go, lines 94
-- to 111).
use helppi_scim_go.Prelude.{
  String, ◌=ₛ◌, Bool, true, false, some, ◌≡◌, refl, ap, ◌∙◌, arith, if◌then◌else◌, leb_ℤ, pos,
}
use helppi_scim_go.Exec.{ok}
use helppi_scim_go.Scim.Types.{Time, User, new_external_id_patch}
use helppi_scim_go.Conformance.Report.{Options}
use helppi_scim_go.Conformance.Runner.{Directory, fresh_runner}
use helppi_scim_go.Conformance.Adds.{Reading}
use helppi_scim_go.Conformance.PhaseOne.{Texts}
use helppi_scim_go.Conformance.PhaseTwo.{active_patch, check, with_default}
use helppi_scim_go.Conformance.Suite.Probes.{Writing}
use helppi_scim_go.Conformance.Suite.Run.{run_checks-Ran}

-- What the suite relies on: to write a value that a record holds since it was read is in the relation.
pub record Rewriting {D : Type 0} {dir : Directory D} (reading : Reading dir) : Type 0 where
  pub held :
      (id : String) (d d' : D) (u : User)
      → (dir.get_user id d).0 ≡ ok u
      → reading.Reads (dir.get_user id d).1 d'
      → reading.Reads d' (dir.patch u.id (new_external_id_patch u.external_id) d').1
  pub held_active :
      (id : String) (d d' : D) (u : User) (b : Bool)
      → (dir.get_user id d).0 ≡ ok u
      → u.active ≡ some b
      → reading.Reads (dir.get_user id d).1 d'
      → reading.Reads d' (dir.patch u.id (active_patch b) d').1

kept_on :
    (b : Bool) (opts : Options)
    → let o = (if b then record opts { page_size = pos 2 } else opts) in
      (o.write_id ≡ opts.write_id) × (o.probe_external_id ≡ opts.probe_external_id)
kept_on true opts = (refl, refl)
kept_on false opts = (refl, refl)

filled {ℓ} : {A : Type ℓ} (s : String) → s ≡ "" → (s =ₛ "") ≡ false → A
filled s e h = let same : (s =ₛ "") ≡ true = ap (λ t. t =ₛ "") e in ground arith

with_default-kept :
    (opts : Options)
    → ((with_default opts).write_id ≡ opts.write_id)
      × ((with_default opts).probe_external_id ≡ opts.probe_external_id)
with_default-kept opts = kept_on (leb_ℤ opts.page_size (pos 0)) opts

module _ {D : Type 0} {dir : Directory D} (reading : Reading dir) (texts : Texts) (now : D → Time)
    (opts : Options) where
  ran :
      (base_url : String) (d : D)
      → Writing reading (with_default opts)
      → reading.Reads d (check dir texts now opts base_url d).1.dir
  unfolding check
  ran base_url d writing =
      let h = run_checks-Ran reading texts now (with_default opts) writing (fresh_runner d) in
      h.reads

  -- A run without a probe value leaves the directory as it was, up to any relation that the reading requests keep and
  -- that a write of the value which a record was read with keeps, whichever record the run may write to.
  pub check-harmless :
      (base_url : String) (d : D)
      → Rewriting reading
      → opts.probe_external_id ≡ ""
      → reading.Reads d (check dir texts now opts base_url d).1.dir
  check-harmless base_url d same unset = ran base_url d (record {
    held = λ d d' u n r a. same.held (with_default opts).write_id d d' u r a;
    held_active = λ d d' u b n r e a. same.held_active (with_default opts).write_id d d' u b r e a;
    probed = λ d u n e.
        filled (with_default opts).probe_external_id ((with_default-kept opts).1 ∙ unset) e;
  })
