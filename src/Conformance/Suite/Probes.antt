-- ===== src/Conformance/Suite/Probes.antt =====
-- The write probes of phase two (conformance/checks.go, lines 407 to 540).
use helppi_scim_go.Prelude.{
  String, ◌=ₛ◌, Bool, true, false, not, ◌||◌, Option, none, some, [], ◌∷◌, ◌≡◌, refl, if◌then◌else◌,
}
use helppi_scim_go.Exec.{Result, ok, err}
use helppi_scim_go.Scim.Types.{User, new_external_id_patch}
use helppi_scim_go.Conformance.Report.{pass, fail, skip, Criterion, Options}
use helppi_scim_go.Conformance.Runner.{Directory, Runner, ask}
use helppi_scim_go.Conformance.Adds.{
  Reading, Adds, Adds-trans, add-Adds, ask-Adds, Adds-refl, chosen, chosen_on,
}
use helppi_scim_go.Conformance.PhaseTwo.{
  accepted_write, idempotent_write, read_only_attributes, active_patch, probing, found,
  write_target, reflects, write_value, write_back_target, check_write_back, write_twice,
  rewrite_target, check_write_back_idempotent, refused, write_active, forbidden_target,
  check_forbidden_attribute, phase_two_checks,
}

-- The writes that the probes send are in the relation: the values that the record was read with, and the probe
-- value where there is one.
pub record Writing {D : Type 0} {dir : Directory D} (reading : Reading dir) (opts : Options)
    : Type 0 where
  pub held :
      (d d' : D) (u : User)
      → (opts.write_id =ₛ "") ≡ false
      → (dir.get_user opts.write_id d).0 ≡ ok u
      → reading.Reads (dir.get_user opts.write_id d).1 d'
      → reading.Reads d' (dir.patch u.id (new_external_id_patch u.external_id) d').1
  pub held_active :
      (d d' : D) (u : User) (b : Bool)
      → (opts.write_id =ₛ "") ≡ false
      → (dir.get_user opts.write_id d).0 ≡ ok u
      → u.active ≡ some b
      → reading.Reads (dir.get_user opts.write_id d).1 d'
      → reading.Reads d' (dir.patch u.id (active_patch b) d').1
  pub probed :
      (d : D) (u : User)
      → (opts.write_id =ₛ "") ≡ false
      → (opts.probe_external_id =ₛ "") ≡ false
      → reading.Reads d (dir.patch u.id (new_external_id_patch opts.probe_external_id) d).1

module _ {D : Type 0} {dir : Directory D} {reading : Reading dir} (opts : Options)
    (writing : Writing reading opts) where
  -- The record that a probe writes to was read from the directory.
  abbrev Target : Runner D → User → Type 0
  Target w u =
      (d : D) × ((opts.write_id =ₛ "") ≡ false)
      × ((dir.get_user opts.write_id d).0 ≡ ok u)
      × reading.Reads (dir.get_user opts.write_id d).1 w.dir

  value-Adds :
      (u : User) (value : String) (w : Runner D)
      → reading.Reads w.dir (dir.patch u.id (new_external_id_patch value) w.dir).1
      → Adds reading (accepted_write ∷ []) w (write_value dir opts u value w)
  unfolding write_value
  value-Adds u value w h =
      let op = dir.patch u.id (new_external_id_patch value) in
      Adds-trans reading [] (accepted_write ∷ []) w (ask op w).1 _ (ask-Adds reading op w h) (
        chosen reading (reflects dir opts value (ask op w).0) accepted_write (ask op w).1 _ _
          (add-Adds reading accepted_write pass (ask op w).1)
          (add-Adds reading accepted_write fail (ask op w).1))

  abbrev Reached : Runner D → Option User → Type 0
  Reached w none = Unit {0}
  Reached w (some u) = Target w u

  target-Adds :
      (o : Option User) (w : Runner D)
      → Reached w o
      → Adds reading (accepted_write ∷ []) w (write_back_target dir opts o w)
  unfolding write_back_target
  target-Adds none w h = add-Adds reading accepted_write fail w
  target-Adds (some u) w (d, named, read, after) =
      chosen_on reading (not (u.external_id =ₛ "")) accepted_write w _ _
        (λ e. value-Adds u u.external_id w (writing.held d w.dir u named read after))
        (λ e.
          chosen_on reading (opts.probe_external_id =ₛ "") accepted_write w _ _
            (λ e'. add-Adds reading accepted_write skip w)
            (λ e'. value-Adds u opts.probe_external_id w (writing.probed w.dir u named e')))

  twice-Adds :
      (u : User) (w : Runner D)
      → Target w u
      → Adds reading (idempotent_write ∷ []) w (write_twice dir opts u w)
  unfolding write_twice
  twice-Adds u w (d, named, read, after) =
      let op = dir.patch u.id (new_external_id_patch u.external_id) in
      let w₁ = (ask op w).1 in
      let w₂ = (ask op w₁).1 in
      let c = idempotent_write in
      let first = writing.held d w.dir u named read after in
      let second =
        writing.held d w₁.dir u named read
          (reading.Reads-trans (dir.get_user opts.write_id d).1 w.dir w₁.dir after first) in
      Adds-trans reading [] (c ∷ []) w w₁ _ (ask-Adds reading op w first) (
        chosen reading (not (reflects dir opts u.external_id (ask op w).0)) c w₁ _ _
          (add-Adds reading c fail w₁)
          (Adds-trans reading [] (c ∷ []) w₁ w₂ _ (ask-Adds reading op w₁ second) (
            chosen reading (reflects dir opts u.external_id (ask op w₁).0) c w₂ _ _
              (add-Adds reading c pass w₂) (add-Adds reading c fail w₂))))

  rewrite-Adds :
      (o : Option User) (w : Runner D)
      → Reached w o
      → Adds reading (idempotent_write ∷ []) w (rewrite_target dir opts o w)
  unfolding rewrite_target
  rewrite-Adds none w h = add-Adds reading idempotent_write skip w
  rewrite-Adds (some u) w h =
      chosen reading (u.external_id =ₛ "") idempotent_write w _ _
        (add-Adds reading idempotent_write skip w) (twice-Adds u w h)

  refused-Adds :
      (r : Result User) (w : Runner D)
      → Adds reading (read_only_attributes ∷ []) w (refused dir opts r w)
  unfolding refused
  refused-Adds (ok u) w = add-Adds reading read_only_attributes fail w
  refused-Adds (err e) w =
      chosen reading _ read_only_attributes w _ _ (add-Adds reading read_only_attributes pass w)
        (add-Adds reading read_only_attributes fail w)

  active-Adds :
      (u : User) (b : Option Bool) (w : Runner D)
      → u.active ≡ b
      → Target w u
      → Adds reading (read_only_attributes ∷ []) w (write_active dir opts u b w)
  active-Adds u none w e h = add-Adds reading read_only_attributes skip w
  active-Adds u (some b) w e (d, named, read, after) =
      let op = dir.patch u.id (active_patch b) in
      Adds-trans reading [] (read_only_attributes ∷ []) w (ask op w).1 _
        (ask-Adds reading op w (writing.held_active d w.dir u b named read e after))
        (refused-Adds (ask op w).0 (ask op w).1)

  forbidden-Adds :
      (o : Option User) (w : Runner D)
      → Reached w o
      → Adds reading (read_only_attributes ∷ []) w (forbidden_target dir opts o w)
  unfolding forbidden_target
  forbidden-Adds none w h = add-Adds reading read_only_attributes skip w
  forbidden-Adds (some u) w h = active-Adds u u.active w refl h

  read-Reached :
      (w : Runner D) (r : Result User)
      → (opts.write_id =ₛ "") ≡ false
      → (dir.get_user opts.write_id w.dir).0 ≡ r
      → Reached (ask (dir.get_user opts.write_id) w).1 (found dir opts r)
  read-Reached w (err e) named h = tt
  read-Reached w (ok u) named h =
      (w.dir, named, h, reading.Reads-refl (dir.get_user opts.write_id w.dir).1)

  abbrev Arrived : Runner D → Option User × Runner D → Type 0
  Arrived w (o, w') = Reached w' o × Adds reading [] w w'

  branch-Arrived :
      (b c : Bool) (w : Runner D)
      → (opts.write_id =ₛ "") ≡ c
      → Arrived w (
          if not b || c then (none, w) else (
            found dir opts (dir.get_user opts.write_id w.dir).0,
            (ask (dir.get_user opts.write_id) w).1,
          ))
  branch-Arrived true false w e = (
    read-Reached w (dir.get_user opts.write_id w.dir).0 e refl,
    ask-Adds reading (dir.get_user opts.write_id) w (reading.get_user-Reads opts.write_id w.dir),
  )
  branch-Arrived true true w e = (tt, Adds-refl reading w)
  branch-Arrived false c w e = (tt, Adds-refl reading w)

  write_target-Arrived : (w : Runner D) → Arrived w (write_target dir opts w)
  write_target-Arrived w = branch-Arrived (w.blocked =ₛ "") (opts.write_id =ₛ "") w refl

  probing-Adds :
      (c : Criterion) (f : Option User → Runner D → Runner D) (w : Runner D)
      → ((o : Option User) (v : Runner D) → Reached v o → Adds reading (c ∷ []) v (f o v))
      → Adds reading
          (c ∷ [])
          w
          (probing dir opts c (λ v. f (write_target dir opts v).0 (write_target dir opts v).1) w)
  probing-Adds c f w h =
      let t = write_target dir opts w in
      let (reached, adds) = write_target-Arrived w in
      chosen reading (not (w.blocked =ₛ "")) c w _ _ (add-Adds reading c skip w) (
        chosen reading (opts.write_id =ₛ "") c w _ _ (add-Adds reading c skip w)
          (Adds-trans reading [] (c ∷ []) w t.1 (f t.0 t.1) adds (h t.0 t.1 reached)))

  pub phase_two-Adds :
      (w : Runner D)
      → Adds reading
          (accepted_write ∷ idempotent_write ∷ read_only_attributes ∷ [])
          w
          (phase_two_checks dir opts w)
  unfolding phase_two_checks check_write_back check_write_back_idempotent check_forbidden_attribute
  phase_two-Adds w =
      let w₁ = check_write_back dir opts w in
      let w₂ = check_write_back_idempotent dir opts w₁ in
      let w₃ = check_forbidden_attribute dir opts w₂ in
      Adds-trans reading (accepted_write ∷ idempotent_write ∷ []) (read_only_attributes ∷ []) w w₂
        w₃
        (Adds-trans reading (accepted_write ∷ []) (idempotent_write ∷ []) w w₁ w₂
          (probing-Adds accepted_write (write_back_target dir opts) w target-Adds)
          (probing-Adds idempotent_write (rewrite_target dir opts) w₁ rewrite-Adds))
        (probing-Adds read_only_attributes (forbidden_target dir opts) w₂ forbidden-Adds)
