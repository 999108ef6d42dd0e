-- ===== src/Gem/Tx/Fifo.antt =====
-- The transmit ring as a queue of the caller's buffers: the refinement of Gem/Tx.antt.
use rpi5_uefi_build.Common.{
  ℕ, zero, suc, ◌+◌, ◌^◌, ◌≤◌, ◌<◌, ◌≡◌, ◌≢◌, refl, ap, ap₂, ◌∙◌, Bool, true, false, List, [], ◌∷◌,
  ◌++◌, length, subst, leb, if◌then◌else◌, arith,
}
use rpi5_uefi_build.Gem.{Gem, Desc, Status, success, not_ready, tx_desc_count}
use rpi5_uefi_build.Gem.Tx.{in_flight, slot, is_used}

-- A buffer in flight, and whether the hardware is done with it.
pub record Entry : Type 0 where
  pub buffer : ℕ
  pub done : Bool

abbrev pub entry : (ℕ → ℕ) → (ℕ → Desc) → ℕ → Entry
entry user ring i = record { buffer = user i; done = is_used (ring i) }

-- The slots from a counter on.
abbrev pub window : (ℕ → Entry) → ℕ → ℕ → List Entry
window f counter zero = []
window f counter (suc n) = f (slot counter) ∷ window f (suc counter) n

-- The buffers in flight, oldest first.
abbrev pub fifo : Gem → List Entry
fifo gem = window (entry gem.tx_user gem.tx) gem.tx_cons (in_flight gem)

-- The queue's own operations: a buffer comes in at the end, if there is room; one whose frame is
-- done leaves at the front; the hardware is done with the one at a place.
abbrev pub push : List Entry → ℕ → Status × List Entry
push q buffer =
    if leb tx_desc_count (length q)
    then (not_ready, q)
    else (success, q ++ (record { buffer = buffer; done = false }) ∷ [])

abbrev pub pop : List Entry → ℕ × List Entry
pop [] = (0, [])
pop (e ∷ q) = if e.done then (e.buffer, q) else (0, e ∷ q)

abbrev pub mark_done : List Entry → ℕ → List Entry
mark_done [] j = []
mark_done (e ∷ q) zero = (record e { done = true }) ∷ q
mark_done (e ∷ q) (suc j) = e ∷ mark_done q j

abbrev pub front_done : List Entry → Bool
front_done [] = false
front_done (e ∷ q) = e.done

-- The counters have 16 bits and at most the whole ring is in flight.
pub record IsRing (gem : Gem) : Type 0 where
  pub prod_bound : gem.tx_prod < 2 ^ 16
  pub cons_bound : gem.tx_cons < 2 ^ 16
  pub flight_bound : in_flight gem ≤ tx_desc_count
  pub mapped : gem.tx_ring ≢ 0

pub length-window : (f : ℕ → Entry) (c n : ℕ) → length (window f c n) ≡ n
length-window f c zero = refl
length-window f c (suc n) = omega (arith, length-window f (suc c) n)

-- Only the slot matters of a counter.
pub window_slot : (f : ℕ → Entry) (c c' n : ℕ) → slot c ≡ slot c' → window f c n ≡ window f c' n
window_slot f c c' zero e = refl
window_slot f c c' (suc n) e = ap₂ (◌∷◌) (ap f e) (window_slot f (suc c) (suc c') n (omega arith))

-- A window has the slot behind it at its end.
pub window_last :
    (f : ℕ → Entry) (c n : ℕ) → window f c (suc n) ≡ window f c n ++ f (slot (c + n)) ∷ []
window_last f c zero = ap (λ i. f (slot i) ∷ []) (omega arith)
window_last f c (suc n) = ap (◌∷◌ (f (slot c))) (
    window_last f (suc c) n
    ∙ ap (λ i. window f (suc c) n ++ f (slot i) ∷ []) {x = suc c + n} {y = c + suc n} (omega arith))

-- A window depends on its own slots only.
pub window_agree :
    (f g : ℕ → Entry) (c n : ℕ)
    → ((j : ℕ) → j < n → f (slot (c + j)) ≡ g (slot (c + j)))
    → window f c n ≡ window g c n
window_agree f g c zero h = refl
window_agree f g c (suc n) h =
    ap₂ (◌∷◌)
      (subst (λ (i : ℕ). f (slot i) ≡ g (slot i)) {x = c + 0} {y = c} (omega arith)
        (h 0 (omega arith)))
      (window_agree f g (suc c) n (λ j less.
        subst (λ (i : ℕ). f (slot i) ≡ g (slot i)) {x = c + suc j} {y = suc c + j} (omega arith)
          (h (suc j) (omega arith))))

-- Being done with one slot is being done with one entry.
pub window-mark_done :
    (f g : ℕ → Entry) (c n j : ℕ)
    → n ≤ tx_desc_count
    → j < n
    → ((i : ℕ) → i ≢ slot (c + j) → g i ≡ f i)
    → g (slot (c + j)) ≡ (record (f (slot (c + j))) { done = true })
    → window g c n ≡ mark_done (window f c n) j
window-mark_done f g c zero j few h same new = absurd (omega arith)
window-mark_done f g c (suc n) zero few h same new =
    ap₂ (◌∷◌)
      (subst (λ (i : ℕ). g (slot i) ≡ (record (f (slot i)) { done = true })) {x = c + 0} {y = c}
        (omega arith) new)
      (window_agree g f (suc c) n (λ j less. same (slot (suc c + j)) (λ e. absurd (omega arith))))
window-mark_done f g c (suc n) (suc j) few h same new =
    ap₂ (◌∷◌) (same (slot c) (λ e. absurd (omega arith))) (
      window-mark_done f g (suc c) n j (omega arith) (omega arith)
        (λ i ne. same i (λ e. ne (omega arith)))
        (subst (λ (i : ℕ). g (slot i) ≡ (record (f (slot i)) { done = true })) {x = c + suc j}
          {y = suc c + j} (omega arith) new))
