-- ===== src/BootConfig/Tests.antt =====
-- A boot whose configuration is newer than the published one.
use rpi5_uefi_build.Common.{ℕ, ◌≡◌, ◌≢◌, refl, true, false, some, List, [], ◌∷◌}
use rpi5_uefi_build.Common.State.{pure}
use rpi5_uefi_build.Blcfg.{default_values}
use rpi5_uefi_build.Blcfg.Tests.{plain}
use rpi5_uefi_build.BootConfig.{
  success, Name, setup, staged_setup, config, timestamp, Variables, FormLayout, Boot,
  on_ready_to_boot, staged_marker_cleanup, le32,
}
use rpi5_uefi_build.BootConfig.Publish.{IsLawful, Published, on_ready_to_boot-Published}

abbrev written : Name → List ℕ → (Name → List ℕ) → Name → List ℕ
written setup v s setup = v
written setup v s staged_setup = s staged_setup
written setup v s config = s config
written setup v s timestamp = s timestamp
written staged_setup v s setup = s setup
written staged_setup v s staged_setup = v
written staged_setup v s config = s config
written staged_setup v s timestamp = s timestamp
written config v s setup = s setup
written config v s staged_setup = s staged_setup
written config v s config = v
written config v s timestamp = s timestamp
written timestamp v s setup = s setup
written timestamp v s staged_setup = s staged_setup
written timestamp v s config = s config
written timestamp v s timestamp = v

abbrev plain_variables : Variables
plain_variables = record {
  State = Name → List ℕ;
  get_variable = λ name n s. ((success, s name), s);
  set_variable = λ name v s. (success, written name v s);
  value = λ s name. s name;
}

written-same : (name : Name) (v : List ℕ) (s : Name → List ℕ) → written name v s name ≡ v
written-same setup v s = refl
written-same staged_setup v s = refl
written-same config v s = refl
written-same timestamp v s = refl

written-other :
    (name other : Name) (v : List ℕ) (s : Name → List ℕ)
    → other ≢ name
    → written name v s other ≡ s other
written-other setup setup v s ne = absurd (ne refl)
written-other setup staged_setup v s ne = refl
written-other setup config v s ne = refl
written-other setup timestamp v s ne = refl
written-other staged_setup setup v s ne = refl
written-other staged_setup staged_setup v s ne = absurd (ne refl)
written-other staged_setup config v s ne = refl
written-other staged_setup timestamp v s ne = refl
written-other config setup v s ne = refl
written-other config staged_setup v s ne = refl
written-other config config v s ne = absurd (ne refl)
written-other config timestamp v s ne = refl
written-other timestamp setup v s ne = refl
written-other timestamp staged_setup v s ne = refl
written-other timestamp config v s ne = refl
written-other timestamp timestamp v s ne = absurd (ne refl)

plain_variables-IsLawful : IsLawful plain_variables
plain_variables-IsLawful = record {
  value-get_variable = λ name other n s. refl;
  value-set_variable = λ name v s done. written-same name v s;
  value-set_variable_failed = λ name v s bad. absurd (cc);
  value-set_variable_other = λ name other v s ne. written-other name other v s ne;
}

abbrev layout : FormLayout
layout = record {
  size = 15;
  to_bytes = λ form. [];
  of_bytes = λ bytes. record { order = []; uart = 1; halt = 0; wake = 1; psu = 0 };
}

abbrev newer : Boot
newer = record {
  raw = some (b'A' ∷ b'=' ∷ b'1' ∷ []);
  text_len = 3;
  current = default_values;
  dtb_timestamp = 7;
  has_timestamp = true;
  published = false;
}

-- The timestamp 6, and nothing staged.
abbrev stored : Name → List ℕ
stored setup = []
stored staged_setup = []
stored config = []
stored timestamp = 6 ∷ 0 ∷ 0 ∷ 0 ∷ []

on_ready_to_boot-Published_example :
    let r = on_ready_to_boot plain layout plain_variables newer (pure tt) stored in
    Published plain_variables newer stored r.1 × (r.0.published ≡ true)
on_ready_to_boot-Published_example =
    on_ready_to_boot-Published plain_variables plain layout plain_variables-IsLawful newer (pure tt)
      (λ s. (refl, refl)) stored

stamped :
    (on_ready_to_boot plain layout plain_variables newer (pure tt) stored).1 timestamp ≡ le32 7
unfolding on_ready_to_boot staged_marker_cleanup
stamped = refl
