-- ===== src/Gem/Tests.antt =====
-- The Ethernet driver on concrete private data, devices and pools.
use rpi5_uefi_build.Common.{
  u64, u32, ℕ, ◌+◌, ◌-◌, ◌%◌, ◌^◌, ◌≡◌, ◌≢◌, refl, sym, ◌∙◌, ap, true, false, ◌&&◌, List, [], ◌∷◌,
  none, some, ltb, leb, ◌==◌, if◌then◌else◌, arith, BaseMemoryLib,
}
use rpi5_uefi_build.Common.Bits.{bit}
use rpi5_uefi_build.Common.Mmio.{Device, rd, wr}
use rpi5_uefi_build.Gem.{
  Gem, SnpMode, SnpState, stopped, started, initialized, Status, success, Result, ok, error,
}
use rpi5_uefi_build.Gem.Mac.{mac_configure}
use rpi5_uefi_build.Gem.Mac.Fresh.{IsFresh, mac_configure-IsFresh}
use rpi5_uefi_build.Gem.Mac.{update_link_speed}
use rpi5_uefi_build.Gem.Mac.Link.{link_bit, update_link_speed-bits}
use rpi5_uefi_build.Gem.Phy.{resolve}
use rpi5_uefi_build.Gem.Phy.Resolve.{best, modes, resolve-best}
use rpi5_uefi_build.Gem.Dma.{DmaLib, dma_alloc}
use rpi5_uefi_build.Gem.Dma.Pool.{Outcome, dma_alloc-Outcome}
use rpi5_uefi_build.Gem.Rx.Queue
use rpi5_uefi_build.Gem.Tx.Fifo.{fifo, IsRing}
use rpi5_uefi_build.Gem.Tx.Runs
use rpi5_uefi_build.Gem.Tx.Runs.{spec_run, run-spec_run, recycle, poll, complete}
use rpi5_uefi_build.Gem.Snp.Ready.{IsReady}
use rpi5_uefi_build.Gem.Snp.Reach
use rpi5_uefi_build.Gem.Snp.Reach.{
  start, initialize, shutdown, get_status, receive_filters, receive, reachable-IsReady,
}

-- A BaseMemoryLib that does what it documents.
abbrev plain : BaseMemoryLib
plain = record {
  copy_mem = λ m at source n j. if leb at j && ltb j (at + n) then source (j - at) else m j;
  copy_mem_lem = λ m at source n j. refl;
  set_mem = λ m at n v j. if leb at j && ltb j (at + n) then v else m j;
  set_mem_lem = λ m at n v j. refl;
}

-- A device whose management interface is idle and whose PHY answers.
abbrev idle_device : Device
idle_device = record { reply = λ h a. 0x600d_0004 }

abbrev blank_mode : SnpState → SnpMode
blank_mode s = record {
  state = s;
  media_header_size = 14;
  receive_filter_mask = 0x1f;
  receive_filter_setting = 0x07;
  max_mcast_filter_count = 16;
  mcast_filter_count = 0;
  mcast_filter = λ i j. 0;
  current_address = λ j. j + 2;
  permanent_address = λ j. j + 2;
  media_present = false;
}

abbrev sample : SnpState → Gem
sample s = record {
  gem_base = 0x1f_0010_0000;
  eth_cfg_base = 0x1f_0010_4000;
  mode = blank_mode s;
  phy_addr = 1;
  link_up = false;
  desc_buffer = 0x1000;
  rx_ring = 0x1000;
  tx_ring = 0x1100;
  null_rx_desc = 0x1180;
  null_tx_desc = 0x1190;
  rx_buffers = 0x8000;
  tx_buffers = 0x2000;
  rx = λ i. record { addr = if i == 0 then 1 else 0; ctrl = 0xc040; addr_hi = 0; unused = 0 };
  tx = λ i. record { addr = 0; ctrl = 2 ^ 31; addr_hi = 0; unused = 0 };
  null_rx = record { addr = 3; ctrl = 0; addr_hi = 0; unused = 0 };
  null_tx = record { addr = 0; ctrl = 2 ^ 31; addr_hi = 0; unused = 0 };
  rx_data = λ i. i % 256;
  tx_data = λ i. 0;
  rx_head = 0;
  tx_prod = 65535;
  tx_cons = 65534;
  tx_user = λ i. if i == 6 then 0x7000 else 0;
}

sample-IsRing : IsRing (sample initialized)
sample-IsRing = record {
  prod_bound = omega arith;
  cons_bound = omega arith;
  flight_bound = omega arith;
  mapped = λ e. absurd (omega arith);
}

-- The counters wrap around within this run.
abbrev some_calls : List Runs.Call
some_calls =
    Runs.transmit 0x8000 (λ i. i) 60
    ∷ poll
    ∷ recycle
    ∷ Runs.transmit 0x9000 (λ i. i) 1514
    ∷ complete 0 5
    ∷ poll
    ∷ recycle
    ∷ []

run-spec_run_example :
    ((Runs.run plain idle_device (sample initialized) some_calls []).0.0
      ≡ (spec_run (fifo (sample initialized)) some_calls).0)
    × (fifo (Runs.run plain idle_device (sample initialized) some_calls []).0.1
        ≡ (spec_run (fifo (sample initialized)) some_calls).1)
run-spec_run_example =
    run-spec_run plain idle_device (sample initialized) [] some_calls sample-IsRing

-- A pool that hands out one address.
abbrev tail : List (ℕ × ℕ) → List (ℕ × ℕ)
tail [] = []
tail (x ∷ xs) = xs

abbrev given : Result (ℕ × List (ℕ × ℕ)) → ℕ × List (ℕ × ℕ)
given (ok r) = r
given (error e) = (0, [])

one_address :
    (p p' : List (ℕ × ℕ)) (n a : ℕ)
    → ◌≡◌ {A = Result (ℕ × List (ℕ × ℕ))} (ok (4096, (4096, n) ∷ p)) (ok (a, p'))
    → (a ≢ 0) × (p' ≡ (a, n) ∷ p)
one_address p p' n a e =
    let same : 4096 ≡ a = ap (λ r. (given r).0) e in
    (λ z. absurd (omega arith), sym (ap (λ r. (given r).1) e) ∙ ap (λ x. (x, n) ∷ p) same)

never_fails :
    (r : ℕ × List (ℕ × ℕ)) (e : Status)
    → ◌≡◌ {A = Result (ℕ × List (ℕ × ℕ))} (ok r) (error e)
    → e ≢ success
never_fails r e h = absurd (cc)

abbrev bump : DmaLib
bump = record {
  Pool = List (ℕ × ℕ);
  live = λ p. p;
  allocate = λ p n. ok (4096, (4096, n) ∷ p);
  free = λ p n a. tail p;
  allocate-ok = λ p p' n a e. one_address p p' n a e;
  allocate-error = λ p n s e. never_fails (4096, (4096, n) ∷ p) s e;
  free-latest = λ p n a rest e. ap tail e;
}

dma_alloc-Outcome_example : Outcome bump [] (dma_alloc bump (sample stopped) [])
dma_alloc-Outcome_example = dma_alloc-Outcome bump (sample stopped) []

sample_alloc :
    dma_alloc bump (sample stopped) []
    ≡ (success, (dma_alloc bump (sample stopped) []).1, (dma_alloc bump (sample stopped) []).2)
unfolding dma_alloc
sample_alloc = refl

mac_configure-IsFresh_example : IsFresh (mac_configure idle_device (sample started) []).0
mac_configure-IsFresh_example =
    mac_configure-IsFresh idle_device (sample started) [] (omega arith) (λ e. absurd (omega arith))

update_link_speed-bits_example :
    (v : ℕ) × (update_link_speed idle_device (sample initialized) 1000 true [] ≡ (
      tt,
      wr (u64 ((sample initialized).gem_base + 4)) v
          ∷ rd
              (u64 ((sample initialized).gem_base + 4))
              (u32 (idle_device.reply [] (u64 ((sample initialized).gem_base + 4))))
          ∷ [],
    ))
    × (bit 10 v
        ≡ link_bit 1000 true
            (u32 (idle_device.reply [] (u64 ((sample initialized).gem_base + 4))))
            10)
update_link_speed-bits_example =
    update_link_speed-bits idle_device (sample initialized) 10 1000 true [] (omega arith)

resolve-best_example : resolve 0x200 0x800 0x1e1 0x41e1 ≡ best (modes 0x200 0x800 0x1e1 0x41e1)
resolve-best_example = resolve-best 0x200 0x800 0x1e1 0x41e1 (omega arith) (omega arith)

resolve_gigabit : resolve 0x200 0x800 0x1e1 0x41e1 ≡ (1000, true)
unfolding resolve
resolve_gigabit = refl

abbrev snp_calls : List Reach.Call
snp_calls =
    start
    ∷ initialize
    ∷ get_status true true true
    ∷ receive true (record { header_size = true; src = none; dest = none; protocol = true }) 1514
        (some (λ i. 0))
    ∷ shutdown
    ∷ []

reachable-IsReady_example :
    IsReady (Reach.run plain idle_device none 1 (sample stopped) snp_calls []).0
reachable-IsReady_example =
    reachable-IsReady plain idle_device none 1 (sample stopped) snp_calls [] refl refl
      (λ e. absurd (omega arith)) (omega arith)

-- A list of 1000 addresses, for the 16 places of the mode's.
