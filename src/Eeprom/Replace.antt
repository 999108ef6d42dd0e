-- ===== src/Eeprom/Replace.antt =====
-- What `EepromReplaceFileIn` does to the image, on success and on every error.
use rpi5_uefi_build.Common.{
  ℕ, ◌+◌, ◌-◌, ◌%◌, ◌^◌, ◌≤◌, ◌<◌, ◌≡◌, ◌≢◌, ◌↔◌, refl, sym, ◌∙◌, ap, ◌⊎◌, arith, u32, u64, sub64,
  Mem, true, false, ◌||◌, Bool-cases, Option-cases, inl, inr, ltb, if◌then◌else◌, BaseMemoryLib,
  some, none,
}
use rpi5_uefi_build.Eeprom.{
  Status, success, not_found, bad_buffer_size, volume_full, FileLoc, Query, be32, put_be32,
  find_file_in, pad_limit,
}
use rpi5_uefi_build.Eeprom.Layout
use rpi5_uefi_build.Eeprom.Bytes.{put_be32_outside, be32-put_be32, be32_local}
use rpi5_uefi_build.Eeprom.Find.{find_file_in-IsPlaced}
use rpi5_uefi_build.Eeprom.Padding.{round8, wants_header, pad_after-IsPadded}
use rpi5_uefi_build.Eeprom.Update.{write_content, replace_file_in}

-- `out` is `image` with the file at `loc` holding `n` bytes of `content`.
pub record IsWritten (image : Mem) (loc : FileLoc) (content : Mem) (n : ℕ) (out : Mem)
    : Type 0 where
  pub length_field : be32 out (loc.hdr_offset + 4) ≡ n + 16
  pub bytes : (i : ℕ) → i < n → out (loc.content_offset + i) ≡ content i
  pub kept :
      (j : ℕ)
      → (j < loc.hdr_offset + 4)
        ⊎ ((loc.hdr_offset + 8 ≤ j) × (j < loc.content_offset))
        ⊎ (loc.next_offset ≤ j)
      → out j ≡ image j
  pub gap :
      (j : ℕ) → loc.content_offset + n ≤ j → j < round8 (loc.content_offset + n) → out j ≡ 0xff
  pub pad :
      wants_header loc (round8 (loc.content_offset + n)) ≡ true
      → (be32 out (round8 (loc.content_offset + n)) ≡ Layout.pad_magic)
        × (be32 out (round8 (loc.content_offset + n) + 4)
            ≡ loc.next_offset - round8 (loc.content_offset + n) - 8)
  pub erased :
      (j : ℕ)
      → (if wants_header loc (round8 (loc.content_offset + n))
          then round8 (loc.content_offset + n) + 8
          else round8 (loc.content_offset + n))
        ≤ j
      → j < loc.next_offset
      → out j ≡ 0xff

pub write_content-IsWritten :
    (lib : BaseMemoryLib) (image : Mem) (loc : FileLoc) (content : Mem) (n : ℕ)
    → loc.content_offset ≡ loc.hdr_offset + 24
    → loc.content_offset + n ≤ loc.next_offset
    → loc.next_offset % 8 ≡ 0
    → loc.next_offset < 2 ^ 32
    → IsWritten image loc content n (write_content lib image loc content n)
unfolding write_content
write_content-IsWritten lib image loc content n start room whole low =
    let end = loc.content_offset + n in
    let headed = put_be32 image (loc.hdr_offset + 4) (u32 (n + 12 + 4)) in
    let filled = lib.copy_mem headed loc.content_offset content n in
    let plain : u64 end ≡ end = omega arith in
    let padded = pad_after-IsPadded lib filled loc end room whole low in
    let word : be32 filled (loc.hdr_offset + 4) ≡ be32 headed (loc.hdr_offset + 4) =
      be32_local headed filled (loc.hdr_offset + 4)
        (λ j p q. ground (arith, lib.copy_mem_lem headed loc.content_offset content n j)) in
    rw plain (record {
      length_field =
          be32_local filled _ (loc.hdr_offset + 4) (λ j p q. padded.same j (inl (omega arith)))
          ∙ word
          ∙ be32-put_be32 image (loc.hdr_offset + 4) (u32 (n + 12 + 4)) (omega arith)
          ∙ omega arith;
      bytes = λ i h.
          padded.same (loc.content_offset + i) (inl (omega arith))
          ∙ lib.copy_mem_lem headed loc.content_offset content n (loc.content_offset + i)
          ∙ (let back : loc.content_offset + i - loc.content_offset ≡ i = omega arith in
              rw back (ground arith));
      kept = λ j o. ground (
        arith,
        padded.same j,
        lib.copy_mem_lem headed loc.content_offset content n j,
        put_be32_outside image (loc.hdr_offset + 4) (u32 (n + 12 + 4)) j,
      );
      gap = padded.gap;
      pad = padded.pad;
      erased = padded.erased;
    })

-- The sizes for which no offset of `EepromReplaceFileIn` wraps and every padding start is aligned:
-- they hold of a 2 MiB image and of its two partition windows.
pub record IsSized (size : ℕ) (q : Query) : Type 0 where
  pub small : size ≤ 2 ^ 31
  pub room : Layout.erase_align ≤ size
  pub whole : size % 8 ≡ 0
  pub window : q.win_end % 8 ≡ 0
  pub start : q.walk_start < 2 ^ 63

-- Where the next real section, or the limit for padding, stands.
pub next_offset_bound :
    (image : Mem) (size : ℕ) (q : Query) (loc : FileLoc)
    → IsSized size q
    → find_file_in image size q ≡ some loc
    → (loc.content_offset ≡ loc.hdr_offset + 24)
      × (loc.hdr_offset < 2 ^ 31)
      × (loc.next_offset % 8 ≡ 0)
      × (loc.next_offset < 2 ^ 32)
      × (loc.next_offset ≤ size)
unfolding pad_limit
next_offset_bound image size q loc s e =
    let p = find_file_in-IsPlaced image size q loc (omega (arith, s.small)) s.start e in
    ground (arith, p.content, p.inside, p.next_bound)

-- The room that the new content has at `loc`.
abbrev pub Fits : ℕ → FileLoc → ℕ → Type 0
Fits size loc n =
    (n ≤ Layout.max_file_size)
    × (loc.content_offset + n ≤ size - Layout.erase_align)
    × (loc.content_offset + n ≤ loc.next_offset)

module _ (lib : BaseMemoryLib) (image : Mem) (size : ℕ) (q : Query) (content : Mem) (n : ℕ)
    (sized : IsSized size q) where
  -- One case for each way through the function.
  replace-not_found :
      n ≤ Layout.max_file_size
      → find_file_in image size q ≡ none
      → replace_file_in lib image size q content n ≡ (not_found, image)
  unfolding replace_file_in
  replace-not_found short e = let t : ltb Layout.max_file_size n ≡ false = ground arith in rw (t, e)

  replace-too_big :
      Layout.max_file_size < n
      → replace_file_in lib image size q content n ≡ (bad_buffer_size, image)
  unfolding replace_file_in
  replace-too_big h = let t : ltb Layout.max_file_size n ≡ true = ground arith in rw t

  replace-found :
      (loc : FileLoc)
      → n ≤ Layout.max_file_size
      → find_file_in image size q ≡ some loc
      → replace_file_in lib image size q content n ≡ (
          if ltb (size - Layout.erase_align) (loc.content_offset + n)
            || ltb loc.next_offset (loc.content_offset + n)
          then (volume_full, image)
          else (success, write_content lib image loc content n))
  unfolding replace_file_in
  replace-found loc short e =
      let t : ltb Layout.max_file_size n ≡ false = ground arith in
      let b = next_offset_bound image size q loc sized e in
      let limit : sub64 size Layout.erase_align ≡ size - Layout.erase_align =
        omega (arith, sized.small, sized.room) in
      let end : u64 (loc.content_offset + n) ≡ loc.content_offset + n = omega (arith, b) in
      rw (t, e, limit, end)

  -- For sizes at which no offset wraps and the window and the image end 8-aligned, and a file
  -- found where the new content fits: EepromReplaceFileIn succeeds, the content and its length
  -- field are the new ones, the rest of the room is padding or erased bytes, and no other byte
  -- changes.
  pub replace_file_in-IsWritten :
      (loc : FileLoc)
      → find_file_in image size q ≡ some loc
      → Fits size loc n
      → ((replace_file_in lib image size q content n).0 ≡ success)
        × IsWritten image loc content n (replace_file_in lib image size q content n).1
  replace_file_in-IsWritten loc e fits =
      let b = next_offset_bound image size q loc sized e in
      let near : ltb (size - Layout.erase_align) (loc.content_offset + n)
            || ltb loc.next_offset (loc.content_offset + n)
          ≡ false =
        ground arith in
      rw (replace-found loc fits.0 e, near)
        (refl, write_content-IsWritten lib image loc content n b.0 fits.2 b.2 b.3)

  -- Either an error and the image as it was, or a place where the content fits.
  replace-cases :
      ((e : Status) × (e ≢ success) × (replace_file_in lib image size q content n ≡ (e, image)))
      ⊎ ((loc : FileLoc) × (find_file_in image size q ≡ some loc) × Fits size loc n)
  replace-cases = elim (Bool-cases (ltb Layout.max_file_size n)) [
    | inl long ↦ inl (bad_buffer_size, λ e. cc, replace-too_big (ground arith))
    | inr short ↦ elim (Option-cases (find_file_in image size q)) [
      | inl e ↦ inl (not_found, λ e. cc, replace-not_found (ground arith) e)
      | inr (loc, e) ↦
          elim (Bool-cases (
            ltb (size - Layout.erase_align) (loc.content_offset + n)
            || ltb loc.next_offset (loc.content_offset + n))) [
              | inl far ↦ inl (volume_full, λ e. cc, rw (replace-found loc (ground arith) e, far))
              | inr near ↦ inr (loc, e, ground arith)
            ]
    ]
  ]

  -- For sizes at which no offset wraps and the window and the image end 8-aligned,
  -- EepromReplaceFileIn reports success exactly when the content is no longer than a file may
  -- be, the file is there, and the content ends before the scratch sector and the next section.
  pub replace_file_in-success_iff :
      ((replace_file_in lib image size q content n).0 ≡ success)
      ↔ ((loc : FileLoc) × (find_file_in image size q ≡ some loc) × Fits size loc n)
  replace_file_in-success_iff = (
    λ h. elim replace-cases [
      | inl (e, bad, eq) ↦ absurd (bad (sym (ap (λ (r : Status × Mem). r.0) eq) ∙ h))
      | inr fits ↦ fits
    ],
    λ f. (replace_file_in-IsWritten f.0 f.1 f.2).0,
  )

  -- For sizes at which no offset wraps and the window and the image end 8-aligned,
  -- EepromReplaceFileIn leaves the image as it was whenever it does not report success.
  pub replace_file_in-error_unchanged :
      (replace_file_in lib image size q content n).0 ≢ success
      → (replace_file_in lib image size q content n).1 ≡ image
  replace_file_in-error_unchanged h = elim replace-cases [
    | inl (e, bad, eq) ↦ ap (λ (r : Status × Mem). r.1) eq
    | inr f ↦ absurd (h (replace_file_in-IsWritten f.0 f.1 f.2).0)
  ]
