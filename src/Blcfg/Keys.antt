-- ===== src/Blcfg/Keys.antt =====
-- Of which key a line is: the tests of BlTextGetValue and BlBuildNewConfigText in BlcfgValues.c.
use rpi5_uefi_build.Common.{
  ℕ, suc, ◌+◌, ◌≡◌, ◌≢◌, refl, ap, ◌⊎◌, inl, inr, arith, true, false, none, List, [], ◌∷◌, ◌++◌,
  length, length-append, length-take, take, drop, get_or, Bool-cases, All,
}
use rpi5_uefi_build.Blcfg.{
  CompareLib, BlKey, boot_order, boot_uart, power_off_on_halt, wake_on_gpio, psu_max_current,
  all_keys, key_name, is_line_of,
}
use rpi5_uefi_build.Blcfg.Build.{match_key}

take-append : (a b : List ℕ) → take (length a) (a ++ b) ≡ a
take-append [] b = refl
take-append (x ∷ a) b = ap (λ l. x ∷ l) (take-append a b)

get_or-append : (a b : List ℕ) → get_or (a ++ b) (length a) 0 ≡ get_or b 0 0
get_or-append [] b = refl
get_or-append (x ∷ a) b = get_or-append a b

pub drop-append : (a b : List ℕ) (c : ℕ) → drop (length a + 1) (a ++ (c ∷ b)) ≡ b
drop-append [] b c = refl
drop-append (x ∷ a) b c =
    let one_more : suc (length a) + 1 ≡ suc (length a + 1) = omega arith in
    rw one_more (drop-append a b c)

abbrev pub written_line : BlKey → List ℕ → List ℕ
written_line k value = key_name k ++ (b'=' ∷ value)

module _ (lib : CompareLib) where
  is_line_of-append : (name value : List ℕ) → is_line_of lib name (name ++ (b'=' ∷ value)) ≡ true
  unfolding is_line_of
  is_line_of-append name value =
      let same : lib.compare_mem name name ≡ 0 = (lib.compare_mem_iff name name refl).1 refl in
      rw (take-append name (b'=' ∷ value), get_or-append name (b'=' ∷ value), same)
        (ground (arith, length-append name (b'=' ∷ value)))

  pub is_line_of-take :
      (name line : List ℕ) → is_line_of lib name line ≡ true → take (length name) line ≡ name
  unfolding is_line_of
  is_line_of-take name line h =
      (lib.compare_mem_iff (take (length name) line) name
          (ground (arith, length-take (length name) line))).0
        (ground arith)

  -- A line written for a key is one of that key.
  pub is_line_of-written_line :
      (k : BlKey) (value : List ℕ) → is_line_of lib (key_name k) (written_line k value) ≡ true
  is_line_of-written_line k value = is_line_of-append (key_name k) value

  -- Two keys are the same, or a line written for the one is not one of the other.
  apart :
      (k j : BlKey) (value : List ℕ) (i : ℕ)
      → get_or (take (length (key_name k)) (written_line j value)) i 0 ≢ get_or (key_name k) i 0
      → is_line_of lib (key_name k) (written_line j value) ≡ false
  apart k j value i ne = elim (Bool-cases (is_line_of lib (key_name k) (written_line j value))) [
    | inr e ↦ e
    | inl e ↦
        absurd (ne (ap (λ l. get_or l i 0) (is_line_of-take (key_name k) (written_line j value) e)))
  ]

  pub key_cases :
      (k j : BlKey) (value : List ℕ)
      → (k ≡ j) ⊎ (is_line_of lib (key_name k) (written_line j value) ≡ false)
  key_cases boot_order boot_order v = inl refl
  key_cases boot_order boot_uart v =
      inr (apart boot_order boot_uart v 5 (λ e. absurd (omega arith)))
  key_cases boot_order power_off_on_halt v =
      inr (apart boot_order power_off_on_halt v 0 (λ e. absurd (omega arith)))
  key_cases boot_order wake_on_gpio v =
      inr (apart boot_order wake_on_gpio v 0 (λ e. absurd (omega arith)))
  key_cases boot_order psu_max_current v =
      inr (apart boot_order psu_max_current v 0 (λ e. absurd (omega arith)))
  key_cases boot_uart boot_order v =
      inr (apart boot_uart boot_order v 5 (λ e. absurd (omega arith)))
  key_cases boot_uart boot_uart v = inl refl
  key_cases boot_uart power_off_on_halt v =
      inr (apart boot_uart power_off_on_halt v 0 (λ e. absurd (omega arith)))
  key_cases boot_uart wake_on_gpio v =
      inr (apart boot_uart wake_on_gpio v 0 (λ e. absurd (omega arith)))
  key_cases boot_uart psu_max_current v =
      inr (apart boot_uart psu_max_current v 0 (λ e. absurd (omega arith)))
  key_cases power_off_on_halt power_off_on_halt v = inl refl
  key_cases power_off_on_halt boot_order v =
      inr (apart power_off_on_halt boot_order v 0 (λ e. absurd (omega arith)))
  key_cases power_off_on_halt boot_uart v =
      inr (apart power_off_on_halt boot_uart v 0 (λ e. absurd (omega arith)))
  key_cases power_off_on_halt wake_on_gpio v =
      inr (apart power_off_on_halt wake_on_gpio v 0 (λ e. absurd (omega arith)))
  key_cases power_off_on_halt psu_max_current v =
      inr (apart power_off_on_halt psu_max_current v 1 (λ e. absurd (omega arith)))
  key_cases wake_on_gpio wake_on_gpio v = inl refl
  key_cases wake_on_gpio boot_order v =
      inr (apart wake_on_gpio boot_order v 0 (λ e. absurd (omega arith)))
  key_cases wake_on_gpio boot_uart v =
      inr (apart wake_on_gpio boot_uart v 0 (λ e. absurd (omega arith)))
  key_cases wake_on_gpio power_off_on_halt v =
      inr (apart wake_on_gpio power_off_on_halt v 0 (λ e. absurd (omega arith)))
  key_cases wake_on_gpio psu_max_current v =
      inr (apart wake_on_gpio psu_max_current v 0 (λ e. absurd (omega arith)))
  key_cases psu_max_current psu_max_current v = inl refl
  key_cases psu_max_current boot_order v =
      inr (apart psu_max_current boot_order v 0 (λ e. absurd (omega arith)))
  key_cases psu_max_current boot_uart v =
      inr (apart psu_max_current boot_uart v 0 (λ e. absurd (omega arith)))
  key_cases psu_max_current power_off_on_halt v =
      inr (apart psu_max_current power_off_on_halt v 1 (λ e. absurd (omega arith)))
  key_cases psu_max_current wake_on_gpio v =
      inr (apart psu_max_current wake_on_gpio v 0 (λ e. absurd (omega arith)))

  -- A line that matches no key is one of none.
  match_key-none :
      (line : List ℕ) (keys : List BlKey)
      → match_key lib line keys ≡ none
      → All (λ k. is_line_of lib (key_name k) line ≡ false) keys
  unfolding match_key
  match_key-none line [] h = tt
  match_key-none line (k ∷ keys) h = elim (Bool-cases (is_line_of lib (key_name k) line)) [
    | inl e ↦ absurd (ground arith)
    | inr e ↦ (e, match_key-none line keys (ground arith))
  ]

  pub match_key-unmanaged :
      (line : List ℕ) (k : BlKey)
      → match_key lib line all_keys ≡ none
      → is_line_of lib (key_name k) line ≡ false
  match_key-unmanaged line boot_order h = (match_key-none line all_keys h).0
  match_key-unmanaged line boot_uart h = (match_key-none line all_keys h).1.0
  match_key-unmanaged line power_off_on_halt h = (match_key-none line all_keys h).1.1.0
  match_key-unmanaged line wake_on_gpio h = (match_key-none line all_keys h).1.1.1.0
  match_key-unmanaged line psu_max_current h = (match_key-none line all_keys h).1.1.1.1.0
