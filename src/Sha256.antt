-- ===== src/Sha256.antt =====
-- Platform/RaspberryPi/RPi5/Drivers/BootloaderConfigDxe/Sha256.c (under
-- meta-rpi5-uefi/recipes-bsp/edk2-platforms/files/edk2-platforms): the freestanding SHA-256.
-- A UINT32 is a number below 2 ^ 32; the data and the Tail buffer are byte memory, W[64] is a list.
pub mod Blocks
pub mod Padding
pub mod Refine
pub mod Tests
use rpi5_uefi_build.Common.{
  ℕ, zero, suc, ◌+◌, ◌-◌, ◌*◌, ◌/◌, ◌%◌, ◌^◌, Bool, List, [], ◌∷◌, ◌++◌, bit_and, bit_or, bit_xor,
  ltb, leb, ◌==◌, if◌then◌else◌, u8, u32, u64, not32, Mem, store, get_or,
}

-- `mK`
abbrev pub round_constants : List ℕ
round_constants =
    0x428a2f98 ∷ 0x71374491 ∷ 0xb5c0fbcf ∷ 0xe9b5dba5 ∷ 0x3956c25b ∷ 0x59f111f1 ∷ 0x923f82a4
    ∷ 0xab1c5ed5 ∷ 0xd807aa98 ∷ 0x12835b01 ∷ 0x243185be ∷ 0x550c7dc3 ∷ 0x72be5d74 ∷ 0x80deb1fe
    ∷ 0x9bdc06a7 ∷ 0xc19bf174 ∷ 0xe49b69c1 ∷ 0xefbe4786 ∷ 0x0fc19dc6 ∷ 0x240ca1cc ∷ 0x2de92c6f
    ∷ 0x4a7484aa ∷ 0x5cb0a9dc ∷ 0x76f988da ∷ 0x983e5152 ∷ 0xa831c66d ∷ 0xb00327c8 ∷ 0xbf597fc7
    ∷ 0xc6e00bf3 ∷ 0xd5a79147 ∷ 0x06ca6351 ∷ 0x14292967 ∷ 0x27b70a85 ∷ 0x2e1b2138 ∷ 0x4d2c6dfc
    ∷ 0x53380d13 ∷ 0x650a7354 ∷ 0x766a0abb ∷ 0x81c2c92e ∷ 0x92722c85 ∷ 0xa2bfe8a1 ∷ 0xa81a664b
    ∷ 0xc24b8b70 ∷ 0xc76c51a3 ∷ 0xd192e819 ∷ 0xd6990624 ∷ 0xf40e3585 ∷ 0x106aa070 ∷ 0x19a4c116
    ∷ 0x1e376c08 ∷ 0x2748774c ∷ 0x34b0bcb5 ∷ 0x391c0cb3 ∷ 0x4ed8aa4a ∷ 0x5b9cca4f ∷ 0x682e6ff3
    ∷ 0x748f82ee ∷ 0x78a5636f ∷ 0x84c87814 ∷ 0x8cc70208 ∷ 0x90befffa ∷ 0xa4506ceb ∷ 0xbef9a3f7
    ∷ 0xc67178f2 ∷ []

-- ROTR (x, n)
unfoldable pub rotr : ℕ → ℕ → ℕ
rotr x n = bit_or (x / 2 ^ n) (u32 (x * 2 ^ (32 - n)))

-- State[8], and A to H in the rounds.
pub record Regs : Type 0 where
  pub a : ℕ
  pub b : ℕ
  pub c : ℕ
  pub d : ℕ
  pub e : ℕ
  pub f : ℕ
  pub g : ℕ
  pub h : ℕ

-- The bytes of a word are disjoint fields, so `|` of the shifted bytes is their sum.
unfoldable pub block_word : Mem → ℕ → ℕ
block_word block i =
    block (i * 4) * 2 ^ 24
    + block (i * 4 + 1) * 2 ^ 16
    + block (i * 4 + 2) * 2 ^ 8
    + block (i * 4 + 3)

-- The first loop of `Sha256Block`, with `left` words to go.
unfoldable pub load_words : ℕ → Mem → ℕ → List ℕ → List ℕ
unfolding block_word
load_words zero block i w = w
load_words (suc left) block i w = load_words left block (i + 1) (w ++ (block_word block i ∷ []))

unfoldable pub schedule_word : List ℕ → ℕ → ℕ
unfolding rotr
schedule_word w i =
    let x = get_or w (i - 15) 0 in
    let y = get_or w (i - 2) 0 in
    let t1 = bit_xor (bit_xor (rotr x 7) (rotr x 18)) (x / 2 ^ 3) in
    let t2 = bit_xor (bit_xor (rotr y 17) (rotr y 19)) (y / 2 ^ 10) in
    u32 (get_or w (i - 16) 0 + t1 + get_or w (i - 7) 0 + t2)

-- The second loop.
unfoldable pub extend_words : ℕ → ℕ → List ℕ → List ℕ
unfolding schedule_word
extend_words zero i w = w
extend_words (suc left) i w = extend_words left (i + 1) (w ++ (schedule_word w i ∷ []))

-- One round of the third loop.
unfoldable pub round : ℕ → ℕ → Regs → Regs
unfolding rotr
round k w r =
    let t1 = u32 (
      r.h
      + bit_xor (bit_xor (rotr r.e 6) (rotr r.e 11)) (rotr r.e 25)
      + bit_xor (bit_and r.e r.f) (bit_and (not32 r.e) r.g)
      + k
      + w) in
    let t2 = u32 (
      bit_xor (bit_xor (rotr r.a 2) (rotr r.a 13)) (rotr r.a 22)
      + bit_xor (bit_xor (bit_and r.a r.b) (bit_and r.a r.c)) (bit_and r.b r.c)) in
    record {
      a = u32 (t1 + t2);
      b = r.a;
      c = r.b;
      d = r.c;
      e = u32 (r.d + t1);
      f = r.e;
      g = r.f;
      h = r.g;
    }

-- The third loop, over the constants left.
unfoldable pub rounds : List ℕ → List ℕ → ℕ → Regs → Regs
unfolding round
rounds [] w i r = r
rounds (k ∷ ks) w i r = rounds ks w (i + 1) (round k (get_or w i 0) r)

unfoldable pub add_regs : Regs → Regs → Regs
add_regs s r = record {
  a = u32 (s.a + r.a);
  b = u32 (s.b + r.b);
  c = u32 (s.c + r.c);
  d = u32 (s.d + r.d);
  e = u32 (s.e + r.e);
  f = u32 (s.f + r.f);
  g = u32 (s.g + r.g);
  h = u32 (s.h + r.h);
}

-- `Sha256Block`
unfoldable pub sha256_block : Regs → Mem → Regs
sha256_block state block =
    add_regs state (rounds round_constants (extend_words 48 16 (load_words 16 block 0 [])) 0 state)

abbrev pub initial_state : Regs
initial_state = record {
  a = 0x6a09e667;
  b = 0xbb67ae85;
  c = 0x3c6ef372;
  d = 0xa54ff53a;
  e = 0x510e527f;
  f = 0x9b05688c;
  g = 0x1f83d9ab;
  h = 0x5be0cd19;
}

-- `Data += n` of a pointer into byte memory.
abbrev pub advance : Mem → ℕ → Mem
advance m n i = m (n + i)

-- The state of the loop over whole blocks: the hash, `Data` and `Remain`.
pub record Stream : Type 0 where
  pub state : Regs
  pub rest : Mem
  pub remain : ℕ

-- `for (Remain = Len; Remain >= 64; Remain -= 64, Data += 64)`; `Len` rounds are enough.
unfoldable pub whole_blocks : ℕ → Stream → Stream
whole_blocks zero s = s
whole_blocks (suc fuel) s =
    let more = whole_blocks fuel (record {
      state = sha256_block s.state s.rest;
      rest = advance s.rest 64;
      remain = s.remain - 64;
    }) in
    if leb 64 s.remain then more else s

-- `for (i = 0; i < n; i++) m[at i] = f i;`
unfoldable pub write_loop : ℕ → (ℕ → ℕ) → (ℕ → ℕ) → Mem → Mem
write_loop zero at f m = m
write_loop (suc n) at f m = store (write_loop n at f m) (at n) (f n)

abbrev pub tail_len : ℕ → ℕ
tail_len remain = if ltb remain 56 then 64 else 128

-- Tail[128] before the last `Sha256Block` calls; `m` is what the stack held.
unfoldable pub build_tail : Mem → Mem → ℕ → ℕ → Mem
build_tail m rest remain len =
    let copied = write_loop remain (λ i. i) rest m in
    let marked = store copied remain 0x80 in
    let cleared =
      write_loop (tail_len remain - 8 - (remain + 1)) (λ i. remain + 1 + i) (λ i. 0) marked in
    write_loop 8 (λ i. tail_len remain - 1 - i) (λ i. u8 (u64 (len * 8) / 2 ^ (8 * i))) cleared

-- The hash after the tail.
unfoldable pub finish : Mem → Stream → ℕ → Regs
finish m s len =
    let tail = build_tail m s.rest s.remain len in
    let first = sha256_block s.state tail in
    if tail_len s.remain == 128 then sha256_block first (advance tail 64) else first

-- `BlSha256`, up to the digest's bytes.
unfoldable pub bl_sha256_state : Mem → Mem → ℕ → Regs
bl_sha256_state stack message len =
    finish stack (whole_blocks len (record { state = initial_state; rest = message; remain = len }))
      len

abbrev pub word_bytes : ℕ → List ℕ
word_bytes w = u8 (w / 2 ^ 24) ∷ u8 (w / 2 ^ 16) ∷ u8 (w / 2 ^ 8) ∷ u8 w ∷ []

abbrev pub digest_of : Regs → List ℕ
digest_of s =
    word_bytes s.a
    ++ word_bytes s.b
    ++ word_bytes s.c
    ++ word_bytes s.d
    ++ word_bytes s.e
    ++ word_bytes s.f
    ++ word_bytes s.g
    ++ word_bytes s.h

-- `BlSha256`
unfoldable pub bl_sha256 : Mem → Mem → ℕ → List ℕ
unfolding bl_sha256_state
bl_sha256 stack message len = digest_of (bl_sha256_state stack message len)
