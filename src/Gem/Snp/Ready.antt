-- ===== src/Gem/Snp/Ready.antt =====
-- What each call of the Simple Network Protocol keeps: the link between the interface's state and the
-- rings.
use rpi5_uefi_build.Common.{
  ℕ, ◌+◌, ◌-◌, ◌%◌, ◌^◌, ◌≤◌, ◌<◌, ◌≡◌, ◌≢◌, refl, sym, ◌∙◌, Bool, true, false, Option,
  if◌then◌else◌, u16,
}
use rpi5_uefi_build.Common.Mmio.{Device, M, History}
use rpi5_uefi_build.Gem.{
  Gem, Status, Result, ok, error, SnpState, stopped, started, initialized, not_started,
  device_error, rx_desc_count, tx_desc_count,
}
use rpi5_uefi_build.Gem.Phy.{phy_init}
use rpi5_uefi_build.Gem.Phy.Changes.{phy_init-keeps}
use rpi5_uefi_build.Gem.Tx.Fifo.{IsRing}
use rpi5_uefi_build.Gem.Snp.{
  when_initialized, snp_start, snp_stop, snp_reset, snp_shutdown, phy_again,
}

-- An initialized interface has its rings in order, and only it has a link; the buffers are there.
pub record Ready (state : SnpState) (media : Bool) (prod cons ring head buffers : ℕ) : Type 0 where
  pub rings :
      state ≡ initialized
      → (prod < 2 ^ 16)
        × (cons < 2 ^ 16)
        × (u16 (prod + 2 ^ 16 - cons) ≤ tx_desc_count)
        × (head < rx_desc_count)
  pub media_only : media ≡ true → state ≡ initialized
  pub there : ring ≢ 0
  pub aligned : buffers % 4 ≡ 0

abbrev pub IsReady : Gem → Type 0
IsReady gem =
    Ready gem.mode.state gem.mode.media_present gem.tx_prod gem.tx_cons gem.tx_ring gem.rx_head
      gem.rx_buffers

pub IsReady-IsRing : (gem : Gem) → IsReady gem → gem.mode.state ≡ initialized → IsRing gem
IsReady-IsRing gem ready e =
    let (prod, cons, flight, head) = ready.rings e in
    record { prod_bound = prod; cons_bound = cons; flight_bound = flight; mapped = ready.there }

-- A result of either branch.
pub if_any {ℓ} :
    {A : Type ℓ} (Q : A → Type 0) (b : Bool) (x y : A)
    → (b ≡ true → Q x)
    → (b ≡ false → Q y)
    → Q (if b then x else y)
if_any Q true x y p q = p refl
if_any Q false x y p q = q refl

pub when_any {ℓ} :
    {A : Type ℓ} (Q : A → Type 0) (s : SnpState) (fail : Status → A) (go : A)
    → ((e : Status) → Q (fail e))
    → (s ≡ initialized → Q go)
    → Q (when_initialized s fail go)
when_any Q stopped fail go p q = p not_started
when_any Q started fail go p q = p device_error
when_any Q initialized fail go p q = q refl

pub state_any {ℓ} :
    {A : Type ℓ} (Q : A → Type 0) (s : SnpState) (x y z : A)
    → (s ≡ stopped → Q x)
    → (s ≡ started → Q y)
    → (s ≡ initialized → Q z)
    → Q (elim s [ stopped ↦ x | started ↦ y | initialized ↦ z ])
state_any Q stopped x y z p q r = p refl
state_any Q started x y z p q r = q refl
state_any Q initialized x y z p q r = r refl

-- An interface that is not initialized keeps the order in any other such state.
pub idle :
    {state : SnpState} {media : Bool} {prod cons ring head buffers : ℕ} (after : SnpState)
    → Ready state media prod cons ring head buffers
    → state ≢ initialized
    → after ≢ initialized
    → Ready after media prod cons ring head buffers
idle after ready ne ne' = record {
  rings = λ e. absurd (ne' e);
  media_only = λ m. absurd (ne (ready.media_only m));
  there = ready.there;
  aligned = ready.aligned;
}

-- Without a link, the order is the rings'.
no_media :
    {state : SnpState} {media : Bool} {prod cons ring head buffers : ℕ}
    → Ready state media prod cons ring head buffers
    → Ready state false prod cons ring head buffers
no_media ready = record {
  rings = ready.rings;
  media_only = λ m. absurd (cc);
  there = ready.there;
  aligned = ready.aligned;
}

-- A run leaves the order kept.
abbrev pub Left : History → M (Status × Gem) → Type 0
Left h m = IsReady (m h).0.1

pub started_apart : started ≢ initialized
started_apart e = absurd (cc)

pub stopped_apart : stopped ≢ initialized
stopped_apart e = absurd (cc)

pub not_initialized : {s s' : SnpState} → s ≡ s' → s' ≢ initialized → s ≢ initialized
not_initialized e ne e' = ne (sym e ∙ e')

-- The outcome of a call on the interface.
abbrev pub Keeps : (M (Status × Gem)) → Type 0
Keeps m = (h : History) → IsReady (m h).0.1

pub snp_start-IsReady : (gem : Gem) → IsReady gem → Keeps (snp_start gem)
unfolding snp_start
snp_start-IsReady gem ready h =
    state_any (Left h) gem.mode.state _ _ _
      (λ e. idle started ready (not_initialized e stopped_apart) started_apart) (λ e. ready)
      (λ e. ready)

module _ (device : Device) (gem : Gem) (ready : IsReady gem) where
  pub snp_stop-IsReady : Keeps (snp_stop device gem)
  unfolding snp_stop
  snp_stop-IsReady h =
      state_any (Left h) gem.mode.state _ _ _ (λ e. ready)
        (λ e. idle stopped ready (not_initialized e started_apart) stopped_apart) (λ e. ready)

  pub snp_shutdown-IsReady : Keeps (snp_shutdown device gem)
  unfolding snp_shutdown
  snp_shutdown-IsReady h =
      when_any (Left h) gem.mode.state _ _ (λ e. ready)
        (λ e. record {
          rings = λ e'. absurd (started_apart e');
          media_only = λ m. absurd (cc);
          there = ready.there;
          aligned = ready.aligned;
        })

  phy_again-IsReady : (r : Result (Unit {0}) × Gem) → IsReady r.1 → IsReady (phy_again device r).1
  phy_again-IsReady (error e, gem') p = p
  phy_again-IsReady (ok u, gem') p = no_media p

  pub snp_reset-IsReady :
      (rp1_base : Option ℕ) (pcd : ℕ) → Keeps (snp_reset device rp1_base pcd gem)
  unfolding snp_reset
  snp_reset-IsReady rp1_base pcd h =
      when_any (Left h) gem.mode.state _ _ (λ e. ready)
        (λ e.
          phy_again-IsReady (phy_init device rp1_base pcd gem h).0
            (phy_init-keeps device IsReady (λ g phy up p. p) rp1_base pcd gem h ready))
