-- ===== src/Sha256/Refine.antt =====
-- `BlSha256` computes SHA-256: the hash of the padded message, block by block.
use rpi5_uefi_build.Common.{
  ℕ, ◌+◌, ◌*◌, ◌/◌, ◌%◌, ◌≡◌, refl, sym, ◌∙◌, arith, Mem, ltb, Bool-cases, inl, inr,
}
use rpi5_uefi_build.Sha256.{
  Stream, initial_state, advance, whole_blocks, tail_len, build_tail, finish, bl_sha256_state,
}
use rpi5_uefi_build.Sha256.Blocks.{
  hash_blocks, hash_blocks-add, hash_blocks_local, whole_blocks-IsStreamed,
}
use rpi5_uefi_build.Sha256.Padding.{padded, padded_len, tail_place, build_tail-padded}

-- The last calls of `Sha256Block` are those of one block of Tail[], or two.
finish-hash_blocks :
    (stack : Mem) (s : Stream) (len : ℕ)
    → finish stack s len
      ≡ hash_blocks (tail_len s.remain / 64) s.state (build_tail stack s.rest s.remain len)
unfolding finish hash_blocks
finish-hash_blocks stack s len = elim (Bool-cases (ltb s.remain 56)) [
  | inl short ↦ rw short
  | inr long ↦ rw long
]

-- The state BlSha256 reaches, on every message and whatever the stack held, is the block-by-block
-- hash of the whole padded message, described independently of the tail buffer.
pub bl_sha256_state-padded :
    (stack message : Mem) (len : ℕ)
    → bl_sha256_state stack message len
      ≡ hash_blocks (padded_len len / 64) initial_state (padded message len)
unfolding bl_sha256_state
bl_sha256_state-padded stack message len =
    let start : Stream = record { state = initial_state; rest = message; remain = len } in
    let out = whole_blocks len start in
    let done = whole_blocks-IsStreamed len start (omega arith) in
    let (place, room) = tail_place len in
    let count : padded_len len / 64 ≡ len / 64 + tail_len (len % 64) / 64 = omega (arith, place) in
    let whole : hash_blocks (len / 64) initial_state (padded message len) ≡ out.state =
      hash_blocks_local (len / 64) initial_state message (padded message len) (λ j h. ground arith)
      ∙ sym done.state in
    let rest = advance (padded message len) (len / 64 * 64) in
    let tail = build_tail stack out.rest (len % 64) len in
    let last : hash_blocks (tail_len (len % 64) / 64) out.state tail
        ≡ hash_blocks (tail_len (len % 64) / 64) out.state rest =
      hash_blocks_local (tail_len (len % 64) / 64) out.state rest tail
        (λ j h. build_tail-padded stack out.rest message len j (done.rest j) (ground arith)) in
    let both : hash_blocks (padded_len len / 64) initial_state (padded message len)
        ≡ hash_blocks (tail_len (len % 64) / 64) out.state rest =
      rw
        (
          count,
          hash_blocks-add (len / 64) (tail_len (len % 64) / 64) initial_state (padded message len),
          whole,
        )
        refl in
    finish-hash_blocks stack out len ∙ rw done.remain last ∙ sym both
