-- ===== src/Fmp/Identity.antt =====
-- The search for the firmware file leaves every file as it is, and what it finds has the header of the
-- variable store where the updatable region ends.
use rpi5_uefi_build.Common.{
  ℕ, zero, suc, ◌+◌, ◌<◌, ◌≡◌, refl, ap, ◌∙◌, inl, inr, true, false, not, ◌||◌, Option, none, some,
  List, [], ◌∷◌, ◌==◌, Bool-cases, arith, Mem, subst, some-eq,
}
use rpi5_uefi_build.Fmp.{
  Status, success, is_error, Mode, Files, Same, IsLawful, Platform, firmware_file_names,
  updatable_size, is_nv_store,
}
use rpi5_uefi_build.Common.State.{Act}
use rpi5_uefi_build.Fmp.Update.{
  is_unusable, judge_header, check_firmware_file, keep_or, try_opened, try_names, found_on,
  try_volume, search_handles, search_found, open_firmware_file,
}

pub success_of : (s : Status) → is_error s ≡ false → s ≡ success
success_of s h = ground arith

module _ (platform : Platform) (files : Files) where
  open files use {Disk, Volume, File, FileId, bytes, file_of}

  -- The file has the header of the variable store where the updatable region ends.
  abbrev pub IsFirmware : Disk → FileId → Type 0
  IsFirmware d id =
      (header : Mem) × ((j : ℕ)
        → j < platform.header_size
        → header j ≡ bytes d id (updatable_size platform + j))
      × (is_nv_store platform header ≡ true)

  abbrev Finds {ℓ} : {A : Type ℓ} → (A → FileId) → Disk → Option A × Disk → Type ℓ
  Finds {A = A} id_of d r = Same files d r.1 × ((a : A) → r.0 ≡ some a → IsFirmware d (id_of a))

  Finds-Same {ℓ} :
      {A : Type ℓ} (id_of : A → FileId) (d d' : Disk) (r : Option A × Disk)
      → Same files d d'
      → Finds id_of d' r
      → Finds id_of d r
  Finds-Same id_of d d' r same (kept, firmware) = (
    λ id j. kept id j ∙ same id j,
    λ a e.
        let (header, reads, good) = firmware a e in
        (header, λ j less. reads j less ∙ same _ _, good),
  )

  judged_header :
      (s : Status) (n : ℕ) (m : Mem)
      → judge_header platform files (s, n, m) ≡ success
      → (s ≡ success) × (n ≡ platform.header_size) × (is_nv_store platform m ≡ true)
  judged_header s n m e = elim (Bool-cases (is_error s || not (n == platform.header_size))) [
    | inl bad ↦ absurd (ground arith)
    | inr good ↦ elim (Bool-cases (is_nv_store platform m)) [
      | inl store ↦ (ground arith, ground arith, store)
      | inr other ↦ absurd (ground arith)
    ]
  ]

  module _ (lawful : IsLawful files) where
    check-IsFirmware :
        (f : File) (d : Disk)
        → Same files d (check_firmware_file platform files f d).1
          × ((check_firmware_file platform files f d).0 ≡ success → IsFirmware d (file_of f))
    unfolding check_firmware_file
    check-IsFirmware f d =
        elim (Bool-cases (is_error (files.set_position f (updatable_size platform) d).0)) [
          | inl bad ↦ rw bad (lawful.set_position-Same f _ d, λ e. absurd (cc))
          | inr good ↦ rw good (
              let at = (files.set_position f (updatable_size platform) d).1 in
              let r = files.read_file f platform.header_size (λ i. 0) at in
              let moved = lawful.set_position-Same f (updatable_size platform) d in
              let placed =
                lawful.position-set_position f (updatable_size platform) d (success_of _ good) in
              (
                λ id j. lawful.read_file-Same f _ _ at id j ∙ moved id j,
                λ e.
                    let (done, whole, store) = judged_header r.0.0 r.0.1 r.0.2 e in
                    (
                      r.0.2,
                      λ j less.
                          lawful.read_file_lem f _ _ at j done (omega (arith, whole))
                          ∙ ap (λ p. bytes at (file_of f) (p + j)) placed
                          ∙ moved _ _,
                      store,
                    ),
              ))
        ]

    -- A step that leaves the files alone may go before a search.
    abbrev Searches {ℓ} : {A : Type ℓ} → (A → FileId) → Act Disk (Option A) → Type ℓ
    Searches id_of m = (d : Disk) → Finds id_of d (m d)

    keep_or-Finds :
        (f : File) (rest : Act Disk (Option File)) (s : Status) (d d' : Disk)
        → Same files d d'
        → (s ≡ success → IsFirmware d (file_of f))
        → Searches file_of rest
        → Finds file_of d (keep_or platform files f rest s d')
    keep_or-Finds f rest s d d' same checked searches = elim (Bool-cases (is_error s)) [
      | inl bad ↦ rw bad (
          Finds-Same file_of d (files.close_file f d') (rest (files.close_file f d'))
            (λ id j. lawful.close_file-Same f d' id j ∙ same id j)
            (searches (files.close_file f d')))
      | inr good ↦ rw good (
        same,
        λ a e. subst (λ x. IsFirmware d (file_of x)) (some-eq e) (checked (success_of s good)),
      )
    ]

    try_opened-Finds :
        (rest : Act Disk (Option File)) (o : Option File) (d d' : Disk)
        → Same files d d'
        → Searches file_of rest
        → Finds file_of d (try_opened platform files rest o d')
    try_opened-Finds rest none d d' same searches = Finds-Same file_of d d' _ same (searches d')
    try_opened-Finds rest (some f) d d' same searches =
        let (kept, checked) = check-IsFirmware f d' in
        Finds-Same file_of d d' _ same (keep_or-Finds f rest _ d' _ kept checked searches)

    try_names-Finds :
        (mode : Mode) (v : Volume) (names : List (List ℕ))
        → Searches file_of (try_names platform files mode v names)
    unfolding try_names
    try_names-Finds mode v [] d = (λ id j. refl, λ a e. absurd (cc))
    try_names-Finds mode v (name ∷ names) d =
        try_opened-Finds (try_names platform files mode v names) (files.open_file v name mode d).0 d
          (files.open_file v name mode d).1 (lawful.open_file-Same v name mode d)
          (try_names-Finds mode v names)

    abbrev which : Volume × File → FileId
    which x = file_of x.1

    found_on-Finds :
        (v : Volume) (rest : Act Disk (Option (Volume × File))) (o : Option File) (d d' : Disk)
        → Finds file_of d (o, d')
        → Searches which rest
        → Finds which d (found_on platform files v rest o d')
    found_on-Finds v rest none d d' (same, _) searches =
        Finds-Same which d (files.close_volume v d') _
          (λ id j. lawful.close_volume-Same v d' id j ∙ same id j)
          (searches (files.close_volume v d'))
    found_on-Finds v rest (some f) d d' (same, firmware) searches =
        (same, λ a e. subst (λ x. IsFirmware d (file_of x.1)) (some-eq e) (firmware f refl))

    try_volume-Finds :
        (mode : Mode) (rest : Act Disk (Option (Volume × File))) (o : Option Volume) (d d' : Disk)
        → Same files d d'
        → Searches which rest
        → Finds which d (try_volume platform files mode rest o d')
    try_volume-Finds mode rest none d d' same searches = Finds-Same which d d' _ same (searches d')
    try_volume-Finds mode rest (some v) d d' same searches =
        let names = try_names platform files mode v firmware_file_names d' in
        Finds-Same which d d' _ same (
          found_on-Finds v rest names.0 d' names.1 (try_names-Finds mode v firmware_file_names d')
            searches)

    search_handles-Finds :
        (mode : Mode) (left index : ℕ)
        → Searches which (search_handles platform files mode left index)
    unfolding search_handles
    search_handles-Finds mode zero index d = (λ id j. refl, λ a e. absurd (cc))
    search_handles-Finds mode (suc left) index d =
        elim (Bool-cases (is_unusable mode (files.block_io d index))) [
          | inl bad ↦ rw bad (search_handles-Finds mode left (index + 1) d)
          | inr good ↦ rw good (
              try_volume-Finds mode (search_handles platform files mode left (index + 1))
                (files.open_volume index d).0 d (files.open_volume index d).1
                (lawful.open_volume-Same index d) (search_handles-Finds mode left (index + 1)))
        ]

    search_found-Finds :
        (mode : Mode) (o : Option ℕ) → Searches which (search_found platform files mode o)
    search_found-Finds mode none d = (λ id j. refl, λ a e. absurd (cc))
    search_found-Finds mode (some count) d = search_handles-Finds mode count 0 d

    pub open_firmware_file-Same :
        (mode : Mode) (d : Disk) → Same files d (open_firmware_file platform files mode d).1
    unfolding open_firmware_file
    open_firmware_file-Same mode d = (search_found-Finds mode (files.handles d) d).0

    pub open_firmware_file-IsFirmware :
        (mode : Mode) (d : Disk) (x : Volume × File)
        → (open_firmware_file platform files mode d).0 ≡ some x
        → IsFirmware d (file_of x.1)
    unfolding open_firmware_file
    open_firmware_file-IsFirmware mode d x e = (search_found-Finds mode (files.handles d) d).1 x e
