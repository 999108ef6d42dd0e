-- ===== src/Gem/Tx/Runs.antt =====
-- Runs of the transmit ring: calls of the driver and completions by the hardware, in any order, on
-- the ring and on the queue that it implements.
use rpi5_uefi_build.Common.{
  ℕ, zero, suc, ◌+◌, ◌%◌, ◌^◌, ◌<◌, ◌≤◌, ◌≡◌, refl, ap, ap₂, sym, ◌∙◌, inl, inr, ◌⊎◌, Bool, true,
  false, List, [], ◌∷◌, length, ltb, leb, ltb-false, ◌==◌, ==_ne, if◌then◌else◌, Bool-cases, arith,
  Mem, BaseMemoryLib,
}
use rpi5_uefi_build.Common.Mmio.{Device, M, History, pure, ◌>>=◌}
use rpi5_uefi_build.Gem.{Gem, Desc, Status, put, put_same, put_other, tx_desc_count}
use rpi5_uefi_build.Gem.Tx.{
  in_flight, slot, set_ctrl, is_used, queued, transmit_frame, tx_pending_completion,
  get_recycled_tx_buffer,
}
use rpi5_uefi_build.Gem.Tx.Fifo.{
  Entry, entry, window, fifo, push, pop, mark_done, front_done, IsRing, length-window,
  window-mark_done,
}
use rpi5_uefi_build.Gem.Tx.Refine.{
  is_used-pow_add, fifo-queued, fifo-reclaimed, in_flight-queued, entry_agree,
}

-- The hardware is done with the frame at a place of the ring's part in flight: it sets the USED bit
-- and leaves any status in the other bits.
abbrev pub retire : Gem → ℕ → ℕ → Gem
retire gem j status = record gem {
  tx = set_ctrl gem.tx (slot (gem.tx_cons + j)) (2 ^ 31 + status % 2 ^ 31);
}

pub data Call : Type 0 where
  transmit : ℕ → Mem → ℕ → Call
  recycle poll : Call
  complete : ℕ → ℕ → Call

pub data Reply : Type 0 where
  returned : Status → Reply
  given : ℕ → Reply
  pending : Bool → Reply
  silent : Reply

module _ (lib : BaseMemoryLib) (device : Device) where
  abbrev pub step : Gem → Call → M (Reply × Gem)
  step gem (transmit buffer frame n) = do
    (status, gem') ← transmit_frame lib device gem buffer frame n
    pure (returned status, gem')
  step gem recycle = do (buffer, gem') ← get_recycled_tx_buffer gem; pure (given buffer, gem')
  step gem poll = pure (pending (tx_pending_completion gem), gem)
  step gem (complete j status) =
      pure (silent, if ltb j (in_flight gem) then retire gem j status else gem)

  abbrev pub run : Gem → List Call → M (List Reply × Gem)
  run gem [] = pure ([], gem)
  run gem (call ∷ calls) = do
    (reply, gem') ← step gem call
    (replies, last) ← run gem' calls
    pure (reply ∷ replies, last)

-- The same calls on the queue.
abbrev pub spec : List Entry → Call → Reply × List Entry
spec q (transmit buffer frame n) = (returned (push q buffer).0, (push q buffer).1)
spec q recycle = (given (pop q).0, (pop q).1)
spec q poll = (pending (front_done q), q)
spec q (complete j status) = (silent, mark_done q j)

abbrev pub spec_run : List Entry → List Call → List Reply × List Entry
spec_run q [] = ([], q)
spec_run q (call ∷ calls) =
    let after = spec q call in let rest = spec_run after.1 calls in (after.0 ∷ rest.0, rest.1)

-- The call answers as the queue does, and leaves the ring in order with the queue's content.
pub record Refines (r : Reply × Gem) (s : Reply × List Entry) : Type 0 where
  pub same_reply : r.0 ≡ s.0
  pub same_queue : fifo r.1 ≡ s.1
  pub still : IsRing r.1

mark_done_past : (q : List Entry) (j : ℕ) → length q ≤ j → mark_done q j ≡ q
mark_done_past [] j h = refl
mark_done_past (e ∷ q) zero h = absurd (omega arith)
mark_done_past (e ∷ q) (suc j) h = ap (◌∷◌ e) (mark_done_past q j (omega arith))

ℕ-cases : (n : ℕ) → (n ≡ 0) ⊎ ((m : ℕ) × (n ≡ suc m))
ℕ-cases zero = inl refl
ℕ-cases (suc m) = inr (m, refl)

module _ (lib : BaseMemoryLib) (device : Device) (gem : Gem) (ring : IsRing gem) (h : History) where
  abbrev entries : ℕ → Entry
  entries = entry gem.tx_user gem.tx

  size : length (fifo gem) ≡ in_flight gem
  size = length-window entries gem.tx_cons (in_flight gem)

  queued-IsRing :
      (buffer : ℕ) (frame : Mem) (n : ℕ)
      → in_flight gem < tx_desc_count
      → IsRing (queued lib gem buffer frame n)
  queued-IsRing buffer frame n room = record {
    prod_bound = omega arith;
    cons_bound = ring.cons_bound;
    flight_bound = omega (arith, in_flight-queued gem ring lib buffer frame n room);
    mapped = ring.mapped;
  }

  pub transmit-Refines :
      (buffer : ℕ) (frame : Mem) (n : ℕ)
      → Refines
          (step lib device gem (transmit buffer frame n) h).0
          (spec (fifo gem) (transmit buffer frame n))
  unfolding transmit_frame
  transmit-Refines buffer frame n = elim (Bool-cases (leb tx_desc_count (in_flight gem))) [
    | inl full ↦
        let full' : leb tx_desc_count (length (fifo gem)) ≡ true =
          ap (leb tx_desc_count) size ∙ full in
        rw (full, full') (record { same_reply = refl; same_queue = refl; still = ring })
    | inr room ↦
        let room' : leb tx_desc_count (length (fifo gem)) ≡ false =
          ap (leb tx_desc_count) size ∙ room in
        let less : in_flight gem < tx_desc_count = ground arith in
        rw (room, room')
          (record {
            same_reply = refl;
            same_queue = fifo-queued gem ring lib buffer frame n less;
            still = queued-IsRing buffer frame n less;
          })
  ]

  complete-Refines :
      (j status : ℕ)
      → Refines (step lib device gem (complete j status) h).0 (spec (fifo gem) (complete j status))
  complete-Refines j status = elim (Bool-cases (ltb j (in_flight gem))) [
    | inl inside ↦ rw inside (record {
      same_reply = refl;
      same_queue =
          let i = slot (gem.tx_cons + j) in
          let d : Desc = record (gem.tx i) { ctrl = 2 ^ 31 + status % 2 ^ 31 } in
          window-mark_done entries (entry gem.tx_user (put gem.tx i d)) gem.tx_cons (in_flight gem)
            j ring.flight_bound (ground arith)
            (λ i' ne. entry_agree refl (ap is_used (put_other gem.tx i d i' ne)))
            (entry_agree refl (
              ap is_used (put_same gem.tx i d)
              ∙ is_used-pow_add d (status % 2 ^ 31) (omega arith) refl));
      still = record {
        prod_bound = ring.prod_bound;
        cons_bound = ring.cons_bound;
        flight_bound = ring.flight_bound;
        mapped = ring.mapped;
      };
    })
    | inr outside ↦
        let past =
          mark_done_past (fifo gem) j (omega (arith, size, ltb-false j (in_flight gem) outside)) in
        rw outside (record { same_reply = refl; same_queue = sym past; still = ring })
  ]

  -- The ring is empty, or its oldest buffer is at TxCons.
  fifo-cases :
      ((gem.tx_cons == gem.tx_prod) ≡ true) × (fifo gem ≡ [])
      ⊎ ((gem.tx_cons == gem.tx_prod) ≡ false)
        × ((m : ℕ) × (in_flight gem ≡ suc m)
            × (fifo gem ≡ entries (slot gem.tx_cons) ∷ window entries (suc gem.tx_cons) m))
  fifo-cases = elim (ℕ-cases (in_flight gem)) [
    | inl none ↦
        inl (ground (arith, ring.prod_bound, ring.cons_bound), ap (window entries gem.tx_cons) none)
    | inr some ↦ inr (
      ground (arith, ring.prod_bound, ring.cons_bound),
      (some.0, some.1, ap (window entries gem.tx_cons) some.1),
    )
  ]

  front : ℕ → List Entry
  front m = entries (slot gem.tx_cons) ∷ window entries (suc gem.tx_cons) m

  pop-busy : (m : ℕ) → is_used (gem.tx (slot gem.tx_cons)) ≡ false → pop (front m) ≡ (0, front m)
  unfolding front
  pop-busy m busy = rw busy refl

  pop-done :
      (m : ℕ)
      → is_used (gem.tx (slot gem.tx_cons)) ≡ true
      → pop (front m) ≡ (gem.tx_user (slot gem.tx_cons), window entries (suc gem.tx_cons) m)
  unfolding front
  pop-done m done = rw done refl

  poll-Refines : Refines (step lib device gem poll h).0 (spec (fifo gem) poll)
  unfolding tx_pending_completion
  poll-Refines =
      let there = ==_ne gem.tx_ring 0 ring.mapped in
      elim fifo-cases [
        | inl empty ↦ record {
          same_reply =
              rw (tx_pending_completion, there, empty.0)
                (ap (λ q. pending (front_done q)) (sym empty.1));
          same_queue = refl;
          still = ring;
        }
        | inr some ↦ record {
          same_reply =
              rw (tx_pending_completion, there, some.0)
                (ap (λ q. pending (front_done q)) (sym some.1.2));
          same_queue = refl;
          still = ring;
        }
      ]

  pub recycle-Refines : Refines (step lib device gem recycle h).0 (spec (fifo gem) recycle)
  unfolding get_recycled_tx_buffer front
  recycle-Refines = elim fifo-cases [
    | inl empty ↦
        let popped = ap pop empty.1 in
        rw empty.0 (record {
          same_reply = ap (λ r. given r.0) (sym popped);
          same_queue = empty.1 ∙ ap (λ r. r.1) (sym popped);
          still = ring;
        })
    | inr some ↦ elim (Bool-cases (is_used (gem.tx (slot gem.tx_cons)))) [
      | inl done ↦
          let popped = ap pop some.1.2 ∙ pop-done some.1.0 done in
          rw (some.0, done)
            (record {
              same_reply = ap (λ r. given r.0) (sym popped);
              same_queue = fifo-reclaimed gem ring some.1.0 some.1.1 ∙ ap (λ r. r.1) (sym popped);
              still = record {
                prod_bound = ring.prod_bound;
                cons_bound = omega arith;
                flight_bound =
                    omega (arith, some.1.1, ring.flight_bound, ring.prod_bound, ring.cons_bound);
                mapped = ring.mapped;
              };
            })
      | inr busy ↦
          let popped = ap pop some.1.2 ∙ pop-busy some.1.0 busy in
          rw (some.0, busy)
            (record {
              same_reply = ap (λ r. given r.0) (sym popped);
              same_queue = some.1.2 ∙ ap (λ r. r.1) (sym popped);
              still = ring;
            })
    ]
  ]

step-Refines :
    (lib : BaseMemoryLib) (device : Device) (gem : Gem) (h : History) (call : Call)
    → IsRing gem
    → Refines (step lib device gem call h).0 (spec (fifo gem) call)
step-Refines lib device gem h (transmit buffer frame n) ring =
    transmit-Refines lib device gem ring h buffer frame n
step-Refines lib device gem h recycle ring = recycle-Refines lib device gem ring h
step-Refines lib device gem h poll ring = poll-Refines lib device gem ring h
step-Refines lib device gem h (complete j status) ring =
    complete-Refines lib device gem ring h j status

-- From a ring whose 16-bit counters are at most eight apart, over every sequence of
-- transmissions, polls, recyclings and completions by the hardware, in any order and with any
-- status: GemTransmitFrame, GemTxPendingCompletion and GemGetRecycledTxBuffer answer what a queue
-- of at most eight buffers answers, and leave its content, also where the counters wrap around.
pub run-spec_run :
    (lib : BaseMemoryLib) (device : Device) (gem : Gem) (h : History) (calls : List Call)
    → IsRing gem
    → ((run lib device gem calls h).0.0 ≡ (spec_run (fifo gem) calls).0)
      × (fifo (run lib device gem calls h).0.1 ≡ (spec_run (fifo gem) calls).1)
run-spec_run lib device gem h [] ring = (refl, refl)
run-spec_run lib device gem h (call ∷ calls) ring =
    let now = step-Refines lib device gem h call ring in
    let after = step lib device gem call h in
    let (replies, queue) = run-spec_run lib device after.0.1 after.1 calls now.still in
    (
      ap₂ (◌∷◌) now.same_reply (replies ∙ ap (λ q. (spec_run q calls).0) now.same_queue),
      queue ∙ ap (λ q. (spec_run q calls).1) now.same_queue,
    )
