-- ===== src/BootConfig/Publish.antt =====
-- What BootloaderConfigOnReadyToBoot (BootloaderConfigDxe.c) leaves in the variables.
use rpi5_uefi_build.Common.{
  ℕ, ◌≡◌, ◌≢◌, refl, ◌∙◌, ◌⊎◌, inl, inr, true, false, not, Option, none, some, List, [], Bool-cases,
  arith,
}
use rpi5_uefi_build.Common.State.{Act, pure, if_both}
use rpi5_uefi_build.Blcfg.{CompareLib}
use rpi5_uefi_build.BootConfig.{
  Status, success, failed, is_error, Name, staged_setup, config, timestamp, Variables, FormLayout,
  Boot, le32, is_applied, staged_marker_cleanup, is_current, publish, publish_if, on_ready_to_boot,
}

pub success_of : (s : Status) → is_error s ≡ false → s ≡ success
success_of success e = refl
success_of (failed code) e = absurd (cc)

-- What the UEFI specification says of the variable services: a failed write leaves the variable as it was.
pub record IsLawful (variables : Variables) : Type 0 where
  pub value-get_variable :
      (name other : Name) (n : ℕ) (s : variables.State)
      → variables.value (variables.get_variable name n s).1 other ≡ variables.value s other
  pub value-set_variable :
      (name : Name) (v : List ℕ) (s : variables.State)
      → (variables.set_variable name v s).0 ≡ success
      → variables.value (variables.set_variable name v s).1 name ≡ v
  pub value-set_variable_failed :
      (name : Name) (v : List ℕ) (s : variables.State)
      → is_error (variables.set_variable name v s).0 ≡ true
      → variables.value (variables.set_variable name v s).1 name ≡ variables.value s name
  pub value-set_variable_other :
      (name other : Name) (v : List ℕ) (s : variables.State)
      → other ≢ name
      → variables.value (variables.set_variable name v s).1 other ≡ variables.value s other

module _ (variables : Variables) where
  open variables use {State, value, get_variable, set_variable}

  -- The two published variables are the same.
  abbrev pub Same : State → State → Type 0
  Same s s' = (value s' config ≡ value s config) × (value s' timestamp ≡ value s timestamp)

  -- The published variables are as they were; or the configuration is the one that was read, and the
  -- timestamp is as it was or the device tree's.
  abbrev pub Published : Boot → State → State → Type 0
  Published boot s s' =
      Same s s'
      ⊎ ((raw : List ℕ) × (boot.raw ≡ some raw)
          × (boot.has_timestamp ≡ true)
          × (value s' config ≡ raw)
          × ((value s' timestamp ≡ value s timestamp)
              ⊎ (value s' timestamp ≡ le32 boot.dtb_timestamp)))

  Same-trans : (s s' s'' : State) → Same s s' → Same s' s'' → Same s s''
  Same-trans s s' s'' (c, t) (c', t') = (c' ∙ c, t' ∙ t)

  Same-Published :
      (boot : Boot) (s s' s'' : State) → Same s s' → Published boot s' s'' → Published boot s s''
  Same-Published boot s s' s'' (c, t) (inl (c', t')) = inl (c' ∙ c, t' ∙ t)
  Same-Published boot s s' s'' (c, t) (inr (raw, e, has, new, inl kept)) =
      inr (raw, e, has, new, inl (kept ∙ t))
  Same-Published boot s s' s'' (c, t) (inr (raw, e, has, new, inr stamped)) =
      inr (raw, e, has, new, inr stamped)

  module _ (lib : CompareLib) (layout : FormLayout) (lawful : IsLawful variables)
      (boot : Boot) where
    publish-Published :
        (o : Option (List ℕ)) (s : State)
        → boot.raw ≡ o
        → boot.has_timestamp ≡ true
        → Published boot s (publish lib layout variables boot o s).1
    publish-Published none s e has = inl (refl, refl)
    publish-Published (some raw) s e has =
        let w = set_variable config raw s in
        if_both (λ r. Published boot s r.1) (is_error w.0) _ _ w.1
          (λ bad. inl (
            lawful.value-set_variable_failed config raw s bad,
            lawful.value-set_variable_other config timestamp raw s (λ x. cc),
          ))
          (λ good.
            let stamp = le32 boot.dtb_timestamp in
            let w' = set_variable timestamp stamp w.1 in
            let stored =
              lawful.value-set_variable_other timestamp config stamp w.1 (λ x. cc)
              ∙ lawful.value-set_variable config raw s (success_of w.0 good) in
            inr (
              raw,
              e,
              has,
              stored,
              elim (Bool-cases (is_error w'.0)) [
                | inl bad ↦ inl (
                    lawful.value-set_variable_failed timestamp stamp w.1 bad
                    ∙ lawful.value-set_variable_other config timestamp raw s (λ x. cc))
                | inr good' ↦
                    inr (lawful.value-set_variable timestamp stamp w.1 (success_of w'.0 good'))
              ],
            ))

    publish_if-Published : (s : State) → Published boot s (publish_if lib layout variables boot s).1
    publish_if-Published s =
        let g = get_variable timestamp 4 s in
        if_both (λ r. Published boot s r.1) (not boot.has_timestamp) _ _ s (λ no'. inl (refl, refl))
          (λ has.
            Same-Published boot s g.1 _
              (
                lawful.value-get_variable timestamp config 4 s,
                lawful.value-get_variable timestamp timestamp 4 s,
              )
              (if_both (λ r. Published boot g.1 r.1) (is_current lib layout variables boot g.0) _ _
                g.1 (λ now. inl (refl, refl))
                (λ old. publish-Published boot.raw g.1 refl (ground arith))))

    module _ (delete_files : Act State (Unit {0}))
        (keeps : (s : State) → Same s (delete_files s).1) where
      forgotten-Same : (s : State) → Same s (set_variable staged_setup [] s).1
      forgotten-Same s = (
        lawful.value-set_variable_other staged_setup config [] s (λ x. cc),
        lawful.value-set_variable_other staged_setup timestamp [] s (λ x. cc),
      )

      cleanup-Same :
          (s : State) → Same s (staged_marker_cleanup lib layout variables boot delete_files s).1
      unfolding staged_marker_cleanup
      cleanup-Same s =
          let g = get_variable staged_setup layout.size s in
          let read : Same s g.1 = (
            lawful.value-get_variable staged_setup config layout.size s,
            lawful.value-get_variable staged_setup timestamp layout.size s,
          ) in
          if_both (λ r. Same s r.1) (is_error g.0.0) _ _ g.1 (λ bad. read)
            (λ good.
              let deleted =
                if_both (λ r. Same g.1 r.1) (is_applied lib layout variables boot g.0.1)
                  delete_files (pure tt) g.1 (λ applied. keeps g.1) (λ other. (refl, refl)) in
              Same-trans s _ _ (Same-trans s g.1 _ read deleted) (forgotten-Same _))

      -- With lawful variable services, and a deletion of the staged files that leaves the
      -- two published variables alone: on every outcome of the reads and writes,
      -- BootloaderConfigOnReadyToBoot leaves the published configuration and timestamp as
      -- they were; or the configuration is the region that was read and the device tree has
      -- a timestamp, and the stored timestamp is as it was or that one. It has run for this
      -- boot then.
      pub on_ready_to_boot-Published :
          (s : State)
          → let r = on_ready_to_boot lib layout variables boot delete_files s in
            Published boot s r.1 × (r.0.published ≡ true)
      unfolding on_ready_to_boot
      on_ready_to_boot-Published s =
          if_both (λ r. Published boot s r.1 × (r.0.published ≡ true)) boot.published _ _ s
            (λ done. (inl (refl, refl), done))
            (λ first.
              let cleaned = staged_marker_cleanup lib layout variables boot delete_files s in
              (
                Same-Published boot s cleaned.1 _ (cleanup-Same s) (publish_if-Published cleaned.1),
                refl,
              ))
