-- ===== src/Gem/Rx/Queue.antt =====
-- GemReceiveFrame against a queue of the packets that the hardware has filled.
use rpi5_uefi_build.Common.{
  ℕ, zero, suc, ◌%◌, ◌<◌, ◌≡◌, refl, false, Option, none, some, List, [], ◌∷◌, ltb, if◌then◌else◌,
  arith, Mem, BaseMemoryLib,
}
use rpi5_uefi_build.Gem.{Gem, Desc, Status, success, not_ready, buffer_too_small, rx_desc_count}
use rpi5_uefi_build.Gem.Rx.{is_owned, frame_length, is_bad, Received, copy_out}

-- A filled descriptor: its slot and its control word.
pub record Packet : Type 0 where
  pub place : ℕ
  pub ctrl : ℕ

abbrev pub slot : ℕ → ℕ
slot i = i % rx_desc_count

-- One descriptor in front of the packets behind it.
abbrev pub link : ℕ → Desc → List Packet → List Packet
link i d rest = if is_owned d then (record { place = slot i; ctrl = d.ctrl }) ∷ rest else []

-- The filled descriptors from a slot on, up to the first that the hardware still has.
abbrev pub packets : (ℕ → Desc) → ℕ → ℕ → List Packet
packets ring zero i = []
packets ring (suc n) i = link i (ring (slot i)) (packets ring n (suc i))

abbrev pub queue : Gem → List Packet
queue gem = packets gem.rx rx_desc_count gem.rx_head

-- What one call promises: bad packets are dropped; then there is none, or the first does not fit and
-- stays, or it is delivered and leaves.
pub record Answer : Type 0 where
  pub status : Status
  pub delivered : Option Packet
  pub size : ℕ
  pub left : List Packet

abbrev pub receive : List Packet → ℕ → Answer
receive [] size = record { status = not_ready; delivered = none; size = size; left = [] }
receive (p ∷ q) size =
    let rest = receive q size in
    let n = frame_length p.ctrl in
    if is_bad p.ctrl
    then rest
    else if ltb size n
    then record { status = buffer_too_small; delivered = none; size = n; left = p ∷ q }
    else record { status = success; delivered = some p; size = n; left = q }

-- The caller's buffer with the delivered packet's bytes.
abbrev pub filled : BaseMemoryLib → Gem → Mem → Option Packet → Mem
filled lib gem buffer none = buffer
filled lib gem buffer (some p) = copy_out lib gem p.place (frame_length p.ctrl) buffer

abbrev front : Gem → Packet
front gem = record { place = gem.rx_head; ctrl = (gem.rx gem.rx_head).ctrl }

module _ (gem : Gem) (head : gem.rx_head < rx_desc_count) where
  at_head : slot gem.rx_head ≡ gem.rx_head
  at_head = omega arith

  pub queue-empty : is_owned (gem.rx gem.rx_head) ≡ false → queue gem ≡ []
  queue-empty h = rw (at_head, h) refl

-- The result of a call is the answer of the queue, and the caller's buffer holds the packet.
pub record Answers (lib : BaseMemoryLib) (gem : Gem) (buffer : Mem) (r : Received) (a : Answer)
    : Type 0 where
  pub same_status : r.status ≡ a.status
  pub same_size : r.size ≡ a.size
  pub same_buffer : r.buffer ≡ filled lib gem buffer a.delivered
  pub same_queue : queue r.gem ≡ a.left
  pub head_bound : r.gem.rx_head < rx_desc_count

-- The loop returns, and with the queue's answer.
abbrev pub Settles : BaseMemoryLib → Gem → Mem → Option Received → Answer → Type 0
Settles lib gem buffer o a = (r : Received) × (o ≡ some r) × Answers lib gem buffer r a
