-- ===== src/Spi/Wire.antt =====
-- What a transfer of Bcm2712SpiFlash.c puts on the wire and takes from it.
use rpi5_uefi_build.Common.{
  ℕ, ◌+◌, ◌<◌, ◌≤◌, ◌≡◌, refl, sym, ap, ◌∙◌, ◌⊎◌, Option, some, List, [], ◌∷◌, ◌++◌, length, get_or,
  append_assoc, append-nil, ltb, ◌==◌, if◌then◌else◌, arith, u8, Mem,
}
use rpi5_uefi_build.Common.Mmio.{History, rd, wr}
use rpi5_uefi_build.Spi.{Status, success, timeout, BootSpi, Loop, Transfer, total, fifo_address}

-- The bytes that a history reads from an address and the values that it writes there, oldest first.
abbrev pub reads : ℕ → History → List ℕ
reads a [] = []
reads a (rd a' v ∷ h) = let older = reads a h in if a' == a then older ++ v ∷ [] else older
reads a (wr a' v ∷ h) = reads a h

abbrev pub writes : ℕ → History → List ℕ
writes a [] = []
writes a (rd a' v ∷ h) = writes a h
writes a (wr a' v ∷ h) = let older = writes a h in if a' == a then older ++ v ∷ [] else older

-- What the transfer's `i`-th byte out is: the command's, then zeros.
abbrev pub byte_out : Transfer → ℕ → ℕ
byte_out t i = if ltb i t.tx_len then t.tx i else 0

-- The loop's variables tell what has been on the wire since the history `start`.
pub record OnWire (spi : BootSpi) (t : Transfer) (start h : History) (l : Loop) : Type 0 where
  pub taken : List ℕ
  pub given : List ℕ
  pub reads_so_far : reads (fifo_address spi) h ≡ reads (fifo_address spi) start ++ taken
  pub writes_so_far : writes (fifo_address spi) h ≡ writes (fifo_address spi) start ++ given
  pub received_all : length taken ≡ l.received
  pub sent_all : length given ≡ l.sent
  pub sent_bound : l.sent ≤ total t
  pub captured : (j : ℕ) → t.tx_len + j < l.received → l.rx j ≡ u8 (get_or taken (t.tx_len + j) 0)
  pub as_command : (i : ℕ) → i < l.sent → get_or given i 0 ≡ byte_out t i

-- One more entry of an address.
pub one_more :
    (a v : ℕ) (older start list : List ℕ)
    → older ≡ start ++ list
    → (if a == a then older ++ v ∷ [] else older) ≡ start ++ (list ++ v ∷ [])
one_more a v older start list e =
    same a (older ++ v ∷ []) older ∙ ap (λ xs. xs ++ v ∷ []) e ∙ append_assoc start list (v ∷ [])
  where
    same : (a : ℕ) (xs ys : List ℕ) → (if a == a then xs else ys) ≡ xs
    same a xs ys = ground arith

abbrev pub fresh : Mem → Loop
fresh rx = record { sent = 0; received = 0; stall = 0; rx = rx }

pub fresh-OnWire :
    (spi : BootSpi) (t : Transfer) (h : History) (rx : Mem) → OnWire spi t h h (fresh rx)
fresh-OnWire spi t h rx = record {
  taken = [];
  given = [];
  reads_so_far = sym (append-nil (reads (fifo_address spi) h));
  writes_so_far = sym (append-nil (writes (fifo_address spi) h));
  received_all = refl;
  sent_all = refl;
  sent_bound = omega arith;
  captured = λ j less. absurd (omega arith);
  as_command = λ i less. absurd (omega arith);
}

-- How a transfer ends: within its fuel, by a stall or with every byte of the answer taken.
abbrev pub XferEnds : BootSpi → Transfer → History → Option (Status × Mem) → History → Type 0
XferEnds spi t start o h =
    (r : Status × Mem) × (l : Loop) × (o ≡ some r)
    × (r.1 ≡ l.rx)
    × OnWire spi t start h l
    × ((r.0 ≡ timeout) ⊎ ((r.0 ≡ success) × (l.received ≡ total t)))
