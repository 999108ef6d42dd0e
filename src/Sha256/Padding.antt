-- ===== src/Sha256/Padding.antt =====
-- The padding of FIPS 180-4 as one message, and the Tail buffer of `BlSha256` as its end.
use rpi5_uefi_build.Common.{
  ℕ, zero, suc, ◌+◌, ◌-◌, ◌*◌, ◌/◌, ◌%◌, ◌^◌, ◌≤◌, ◌<◌, ◌≡◌, refl, ◌∙◌, ap, arith, Mem, ltb, ◌==◌,
  store, if◌then◌else◌, u8, u64,
}
use rpi5_uefi_build.Sha256.{write_loop, tail_len, build_tail}

-- The length of the padded message: `len`, one byte 0x80, zeros up to the last 8 bytes of a block.
abbrev pub padded_len : ℕ → ℕ
padded_len len = (len + 9 + 63) / 64 * 64

-- The byte `j` of the message followed by 0x80, zeros and the big-endian bit count.
abbrev pub padded : Mem → ℕ → Mem
padded message len j =
    if ltb j len
    then message j
    else if j == len
    then 0x80
    else if ltb j (padded_len len - 8)
    then 0
    else u8 (u64 (len * 8) / 2 ^ (8 * (padded_len len - 1 - j)))

-- Writing `n` cells upwards from `lo`, and downwards from below `hi`.
write_up :
    (n lo : ℕ) (at : ℕ → ℕ) (f : ℕ → ℕ) (m : Mem) (j : ℕ)
    → ((i : ℕ) → at i ≡ lo + i)
    → write_loop n at f m j ≡ (if ltb j lo then m j else if ltb j (lo + n) then f (j - lo) else m j)
unfolding write_loop
write_up zero lo at f m j e = ground arith
write_up (suc n) lo at f m j e =
    let back : lo + n - lo ≡ n = omega arith in
    let last : f (lo + n - lo) ≡ f n = ap f back in
    ground (arith, write_up n lo at f m j e, last, e n)

write_down :
    (n hi : ℕ) (f : ℕ → ℕ) (m : Mem) (j : ℕ)
    → n ≤ hi
    → write_loop n (λ i. hi - 1 - i) f m j
      ≡ (if ltb j (hi - n) then m j else if ltb j hi then f (hi - 1 - j) else m j)
unfolding write_loop
write_down zero hi f m j h = ground arith
write_down (suc n) hi f m j h =
    let back : hi - 1 - (hi - 1 - n) ≡ n = omega arith in
    let last : f (hi - 1 - (hi - 1 - n)) ≡ f n = ap f back in
    ground (arith, write_down n hi f m j (omega arith), last)

-- Where the tail stands in the padded message.
pub tail_place :
    (len : ℕ)
    → (padded_len len ≡ len / 64 * 64 + tail_len (len % 64)) × (len % 64 + 9 ≤ tail_len (len % 64))
tail_place len = ground arith

tail_split :
    (total remain j last before : ℕ) (rest : Mem) {cleared marked copied : ℕ}
    → cleared ≡ (
        if ltb j (remain + 1)
        then marked
        else if ltb j (remain + 1 + (total - 8 - (remain + 1)))
        then 0
        else marked)
    → marked ≡ (if j == remain then 0x80 else copied)
    → copied ≡ (if ltb j 0 then before else if ltb j (0 + remain) then rest (j - 0) else before)
    → remain + 9 ≤ total
    → j < total
    → (if ltb j (total - 8) then cleared else if ltb j total then last else cleared) ≡ (
        if ltb j remain
        then rest j
        else if j == remain
        then 0x80
        else if ltb j (total - 8)
        then 0
        else last)
tail_split total remain j last before rest c m k room h =
    let here : j - 0 ≡ j = omega arith in
    let byte : rest (j - 0) ≡ rest j = ap rest here in ground (arith, byte)

-- The byte `j` of Tail[], from the four loops that write it.
build_tail_byte :
    (stack rest : Mem) (remain len j : ℕ)
    → remain + 9 ≤ tail_len remain
    → j < tail_len remain
    → build_tail stack rest remain len j ≡ (
        if ltb j remain
        then rest j
        else if j == remain
        then 0x80
        else if ltb j (tail_len remain - 8)
        then 0
        else u8 (u64 (len * 8) / 2 ^ (8 * (tail_len remain - 1 - j))))
unfolding build_tail
build_tail_byte stack rest remain len j room h =
    let copied = write_loop remain (λ i. i) rest stack in
    let marked = store copied remain 0x80 in
    let gap = tail_len remain - 8 - (remain + 1) in
    let cleared = write_loop gap (λ i. remain + 1 + i) (λ i. 0) marked in
    let bits : ℕ → ℕ = λ i. u8 (u64 (len * 8) / 2 ^ (8 * i)) in
    write_down 8 (tail_len remain) bits cleared j (omega arith)
    ∙ tail_split (tail_len remain) remain j (bits (tail_len remain - 1 - j)) (stack j) rest
        (write_up gap (remain + 1) (λ i. remain + 1 + i) (λ i. 0) marked j (λ i. refl)) refl
        (write_up remain 0 (λ i. i) rest stack j (λ i. omega arith)) room h

-- Tail[] holds what the padded message has behind the whole blocks.
pub build_tail-padded :
    (stack rest message : Mem) (len j : ℕ)
    → rest j ≡ message (len / 64 * 64 + j)
    → j < tail_len (len % 64)
    → build_tail stack rest (len % 64) len j ≡ padded message len (len / 64 * 64 + j)
build_tail-padded stack rest message len j same h =
    let (place, room) = tail_place len in
    let from_end : padded_len len - 1 - (len / 64 * 64 + j) ≡ tail_len (len % 64) - 1 - j =
      omega (arith, place) in
    let bits : ℕ → ℕ = λ i. u8 (u64 (len * 8) / 2 ^ (8 * i)) in
    let bit : bits (padded_len len - 1 - (len / 64 * 64 + j)) ≡ bits (tail_len (len % 64) - 1 - j) =
      ap bits from_end in
    let below : ltb (len / 64 * 64 + j) len ≡ ltb j (len % 64) = ground arith in
    let marked : (len / 64 * 64 + j == len) ≡ (j == len % 64) = ground arith in
    let zeroed : ltb (len / 64 * 64 + j) (padded_len len - 8) ≡ ltb j (tail_len (len % 64) - 8) =
      ground (arith, place) in
    build_tail_byte stack rest (len % 64) len j room h ∙ rw (below, marked, zeroed, from_end, same)
