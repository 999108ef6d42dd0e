-- ===== src/Sha256/Blocks.antt =====
-- `Sha256Block` over a sequence of blocks, and the loop of `BlSha256` over the whole ones.
use rpi5_uefi_build.Common.{
  ℕ, zero, suc, ◌+◌, ◌-◌, ◌*◌, ◌/◌, ◌%◌, ◌≤◌, ◌<◌, ◌≡◌, refl, ◌∙◌, ap, arith, List, [], ◌∷◌, ◌++◌,
  Mem, leb, leb→le, Bool-cases, inl, inr,
}
use rpi5_uefi_build.Sha256.{
  Regs, Stream, block_word, load_words, extend_words, rounds, add_regs, round_constants,
  sha256_block, advance, whole_blocks,
}

-- The hash after `n` blocks of `m`, in order.
unfoldable pub hash_blocks : ℕ → Regs → Mem → Regs
hash_blocks zero state m = state
hash_blocks (suc n) state m = hash_blocks n (sha256_block state m) (advance m 64)

-- `m'` has the first `n` bytes of `m`.
abbrev pub SameUpTo : ℕ → Mem → Mem → Type 0
SameUpTo n m m' = (j : ℕ) → j < n → m' j ≡ m j

load_words_local :
    (left i : ℕ) (m m' : Mem) (w : List ℕ)
    → i + left ≤ 16
    → SameUpTo 64 m m'
    → load_words left m' i w ≡ load_words left m i w
unfolding load_words
load_words_local zero i m m' w h same = refl
load_words_local (suc left) i m m' w h same =
    let word : block_word m' i ≡ block_word m i = ground (
      arith,
      same (i * 4) (omega arith),
      same (i * 4 + 1) (omega arith),
      same (i * 4 + 2) (omega arith),
      same (i * 4 + 3) (omega arith),
    ) in
    rw word (load_words_local left (i + 1) m m' (w ++ (block_word m i ∷ [])) (omega arith) same)

-- A block is 64 bytes.
pub sha256_block_local :
    (state : Regs) (m m' : Mem) → SameUpTo 64 m m' → sha256_block state m' ≡ sha256_block state m
unfolding sha256_block
sha256_block_local state m m' same =
    ap (λ w. add_regs state (rounds round_constants (extend_words 48 16 w) 0 state))
      (load_words_local 16 0 m m' [] (omega arith) same)

pub hash_blocks_local :
    (n : ℕ) (state : Regs) (m m' : Mem)
    → SameUpTo (n * 64) m m'
    → hash_blocks n state m' ≡ hash_blocks n state m
unfolding hash_blocks
hash_blocks_local zero state m m' same = refl
hash_blocks_local (suc n) state m m' same =
    rw (sha256_block_local state m m' (λ j h. same j (omega arith))) (
      hash_blocks_local n (sha256_block state m) (advance m 64) (advance m' 64)
        (λ j h. same (64 + j) (omega arith)))

pub hash_blocks-add :
    (a b : ℕ) (state : Regs) (m : Mem)
    → hash_blocks (a + b) state m ≡ hash_blocks b (hash_blocks a state m) (advance m (a * 64))
unfolding hash_blocks
hash_blocks-add zero b state m =
    let none_first : 0 + b ≡ b = omega arith in
    rw none_first (hash_blocks_local b state (advance m (0 * 64)) m (λ j h. ap m (omega arith)))
hash_blocks-add (suc a) b state m =
    let one_first : suc a + b ≡ suc (a + b) = omega arith in
    let next = sha256_block state m in
    rw one_first (
      hash_blocks-add a b next (advance m 64)
      ∙ hash_blocks_local b (hash_blocks a next (advance m 64)) (advance m (suc a * 64))
          (advance (advance m 64) (a * 64)) (λ j h. ap m (omega arith)))

-- What the loop over whole blocks leaves: the hash of the whole blocks, and the rest of the data.
pub record IsStreamed (s : Stream) (out : Stream) : Type 0 where
  pub remain : out.remain ≡ s.remain % 64
  pub rest : (j : ℕ) → out.rest j ≡ s.rest (s.remain / 64 * 64 + j)
  pub state : out.state ≡ hash_blocks (s.remain / 64) s.state s.rest

-- With as many rounds as bytes, the loop of BlSha256 over whole blocks stops by its own test:
-- fewer than 64 bytes remain, they are the end of the data, and the hash is that of the whole
-- blocks.
pub whole_blocks-IsStreamed :
    (fuel : ℕ) (s : Stream) → s.remain ≤ fuel → IsStreamed s (whole_blocks fuel s)
unfolding whole_blocks hash_blocks
whole_blocks-IsStreamed zero s h =
    let none_left : s.remain / 64 ≡ 0 = omega arith in
    record { remain = omega arith; rest = λ j. ap s.rest (omega arith); state = rw none_left }
whole_blocks-IsStreamed (suc fuel) s h = elim (Bool-cases (leb 64 s.remain)) [
  | inr last ↦
      let none_left : s.remain / 64 ≡ 0 = ground arith in
      rw last (record {
        remain = ground arith;
        rest = λ j. ap s.rest (omega arith);
        state = rw none_left;
      })
  | inl more ↦
      let later =
        whole_blocks-IsStreamed fuel
          (record {
            state = sha256_block s.state s.rest;
            rest = advance s.rest 64;
            remain = s.remain - 64;
          })
          (ground arith) in
      let big = leb→le 64 s.remain more in
      let count : s.remain / 64 ≡ suc ((s.remain - 64) / 64) = omega arith in
      rw more (record {
        remain = later.remain ∙ omega arith;
        rest = λ j. later.rest j ∙ ap s.rest (omega arith);
        state = later.state ∙ (rw count);
      })
]
