-- ===== src/Eeprom/Timestamp.antt =====
-- What `EepromSetTimestamp` leaves in the two copies of the update time.
use rpi5_uefi_build.Common.{
  ℕ, ◌+◌, ◌-◌, ◌*◌, ◌^◌, ◌≤◌, ◌<◌, ◌≡◌, refl, ◌∙◌, ◌⊎◌, inl, arith, not32, Mem, some, none,
}
use rpi5_uefi_build.Eeprom.{success, not_found, FileLoc, find_file_in, put_le32}
use rpi5_uefi_build.Eeprom.Bytes.{put_le32_outside}
use rpi5_uefi_build.Eeprom.Update.{
  set_timestamp, put_stamp, stamp_slot, read_only_query, partition_a_query,
}

-- The little-endian word at `i`.
unfoldable pub le32 : Mem → ℕ → ℕ
le32 m i = m i + m (i + 1) * 2 ^ 8 + m (i + 2) * 2 ^ 16 + m (i + 3) * 2 ^ 24

le32-put_le32 : (m : Mem) (i v : ℕ) → v < 2 ^ 32 → le32 (put_le32 m i v) i ≡ v
unfolding le32 put_le32
le32-put_le32 m i v h = ground arith

le32_local :
    (m m' : Mem) (i : ℕ) → ((j : ℕ) → i ≤ j → j < i + 4 → m' j ≡ m j) → le32 m' i ≡ le32 m i
unfolding le32
le32_local m m' i h = ground (
  arith,
  h i (omega arith) (omega arith),
  h (i + 1) (omega arith) (omega arith),
  h (i + 2) (omega arith) (omega arith),
  h (i + 3) (omega arith) (omega arith),
)

-- The complement of the time and the time, at `at`.
pub record IsStamped (time at : ℕ) (m : Mem) : Type 0 where
  pub complement : le32 m at ≡ not32 time
  pub stamp : le32 m (at + 4) ≡ time

put_stamp-IsStamped :
    (m : Mem) (at time : ℕ) → time < 2 ^ 32 → IsStamped time at (put_stamp m at time)
unfolding put_stamp
put_stamp-IsStamped m at time h =
    let first = put_le32 m at (not32 time) in
    record {
      complement =
          le32_local first (put_le32 first (at + 4) time) at
            (λ j p q. put_le32_outside first (at + 4) time j (inl (omega arith)))
          ∙ le32-put_le32 m at (not32 time) (omega arith);
      stamp = le32-put_le32 first (at + 4) time h;
    }

put_stamp_outside :
    (m : Mem) (at time j : ℕ) → (j < at) ⊎ (at + 8 ≤ j) → put_stamp m at time j ≡ m j
unfolding put_stamp
put_stamp_outside m at time j o =
    put_le32_outside (put_le32 m at (not32 time)) (at + 4) time j (omega arith)
    ∙ put_le32_outside m at (not32 time) j (omega arith)

-- A copy stays stamped when only bytes behind it change.
IsStamped-local :
    (m m' : Mem) (time at : ℕ)
    → ((j : ℕ) → at ≤ j → j < at + 8 → m' j ≡ m j)
    → IsStamped time at m
    → IsStamped time at m'
IsStamped-local m m' time at same s = record {
  complement = le32_local m m' at (λ j p q. same j p (omega arith)) ∙ s.complement;
  stamp = le32_local m m' (at + 4) (λ j p q. same j (omega arith) (omega arith)) ∙ s.stamp;
}

module _ (image : Mem) (size time : ℕ) (word : time < 2 ^ 32) where
  -- For a 32-bit time, the read-only update time file there with at least 8 bytes and no such
  -- file in partition A, EepromSetTimestamp reports EFI_NOT_FOUND; it has stamped the read-only
  -- file and changed no other byte.
  pub set_timestamp-no_partition :
      (loc : FileLoc)
      → stamp_slot (find_file_in image size read_only_query) ≡ some loc
      → stamp_slot (find_file_in (put_stamp image loc.content_offset time) size partition_a_query)
        ≡ none
      → let (status, out) = set_timestamp image size time in
        (status ≡ not_found)
        × IsStamped time loc.content_offset out
        × ((j : ℕ) → (j < loc.content_offset) ⊎ (loc.content_offset + 8 ≤ j) → out j ≡ image j)
  unfolding set_timestamp
  set_timestamp-no_partition loc e e_a =
      rw (e, set_timestamp, e_a)
        (
          refl,
          put_stamp-IsStamped image loc.content_offset time word,
          put_stamp_outside image loc.content_offset time,
        )

  -- For a 32-bit time and without a read-only update time file of at least 8 bytes,
  -- EepromSetTimestamp stores the complement of the time and the time in the last 8 bytes of an
  -- image of at least 8 bytes, and changes no other byte.
  pub set_timestamp-trailer :
      8 ≤ size
      → stamp_slot (find_file_in image size read_only_query) ≡ none
      → let (status, out) = set_timestamp image size time in
        (status ≡ success)
        × IsStamped time (size - 8) out
        × ((j : ℕ) → (j < size - 8) ⊎ (size ≤ j) → out j ≡ image j)
  unfolding set_timestamp
  set_timestamp-trailer room e =
      let last = put_le32 image (size - 4) time in
      let behind : size - 8 + 4 ≡ size - 4 = omega arith in
      rw (e, set_timestamp)
        (
          refl,
          record {
            complement = le32-put_le32 last (size - 8) (not32 time) (omega arith);
            stamp = rw behind (
                le32_local last (put_le32 last (size - 8) (not32 time)) (size - 4)
                  (λ j p q. put_le32_outside last (size - 8) (not32 time) j (omega arith))
                ∙ le32-put_le32 image (size - 4) time word);
          },
          λ j o.
              put_le32_outside last (size - 8) (not32 time) j (omega arith)
              ∙ put_le32_outside image (size - 4) time j (omega arith),
        )
