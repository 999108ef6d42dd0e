-- ===== src/Fdt/Ranges.antt =====
-- One bus up in GetTranslatedRegAddress: what the bus's "ranges" make of an address, entry by entry.
use rpi5_uefi_build.Common.{
  ℕ, zero, suc, ◌+◌, ◌-◌, ◌*◌, ◌/◌, ◌<◌, ◌≤◌, ◌≡◌, ◌≢◌, refl, sym, ◌∙◌, ap, inl, inr, ◌&&◌, ltb,
  leb, ◌==◌, ==_ne, Option, none, some, some-eq, Option-cases, Bool-cases, arith, subst, u64, Mem,
}
use rpi5_uefi_build.Fdt.{
  FdtLib, Property, Place, step_up, match_ranges, read_cells, through, between, ranges_name,
  reg_name, first_reg, ◌>>=◌,
}

-- Of entries of `ac` + `pc` + `sc` cells, the first one of which starts at cell `i`.
module _ (p : Mem) (ac pc sc addr : ℕ) where
  -- Entry `k`: its address on the bus, on the parent bus, and its size.
  abbrev child : ℕ → ℕ → ℕ
  child i k = read_cells p (i + k * (ac + pc + sc)) ac 0

  abbrev parent : ℕ → ℕ → ℕ
  parent i k = read_cells p (i + k * (ac + pc + sc) + ac) pc 0

  abbrev size : ℕ → ℕ → ℕ
  size i k = read_cells p (i + k * (ac + pc + sc) + ac + pc) sc 0

  abbrev pub IsIn : ℕ → ℕ → Type 0
  IsIn i k = (child i k ≤ addr) × (addr < child i k + size i k)

  -- The first of `n` entries that has the address, and where in its window on the parent bus it is.
  pub record Moved (n i a : ℕ) : Type 0 where
    pub entry : ℕ
    pub there : entry < n
    pub inside : IsIn i entry
    pub first : (k : ℕ) → k < entry → ¬ IsIn i k
    pub address : a ≡ u64 (parent i entry + (addr - child i entry))

  again : (i k : ℕ) → i + (ac + pc + sc) + k * (ac + pc + sc) ≡ i + suc k * (ac + pc + sc)
  again i k = grind arith

  start : (i : ℕ) → i + 0 * (ac + pc + sc) ≡ i
  start i = omega arith

  IsIn-suc : (i k : ℕ) → IsIn (i + (ac + pc + sc)) k → IsIn i (suc k)
  IsIn-suc i k h =
      subst
        (λ c.
          (read_cells p c ac 0 ≤ addr)
          × (addr < read_cells p c ac 0 + read_cells p (c + ac + pc) sc 0))
        (again i k) h

  suc-IsIn : (i k : ℕ) → IsIn i (suc k) → IsIn (i + (ac + pc + sc)) k
  suc-IsIn i k h =
      subst
        (λ c.
          (read_cells p c ac 0 ≤ addr)
          × (addr < read_cells p c ac 0 + read_cells p (c + ac + pc) sc 0))
        (sym (again i k)) h

  -- Whether the first entry has the address.
  abbrev Hits : ℕ → Type 0
  Hits i =
      (read_cells p i ac 0 ≤ addr) × (addr < read_cells p i ac 0 + read_cells p (i + ac + pc) sc 0)

  Hits-IsIn : (i : ℕ) → Hits i → IsIn i 0
  Hits-IsIn i h =
      subst
        (λ c.
          (read_cells p c ac 0 ≤ addr)
          × (addr < read_cells p c ac 0 + read_cells p (c + ac + pc) sc 0))
        (sym (start i)) h

  IsIn-Hits : (i : ℕ) → IsIn i 0 → Hits i
  IsIn-Hits i h =
      subst
        (λ c.
          (read_cells p c ac 0 ≤ addr)
          × (addr < read_cells p c ac 0 + read_cells p (c + ac + pc) sc 0))
        (start i) h

  -- What the search says is so.
  Answer : ℕ → ℕ → Option ℕ → Type 0
  Answer n i none = (k : ℕ) → k < n → ¬ IsIn i k
  Answer n i (some a) = Moved n i a

  later_none :
      (n i : ℕ)
      → ¬ Hits i
      → ((k : ℕ) → k < n → ¬ IsIn (i + (ac + pc + sc)) k)
      → (k : ℕ) → k < suc n
      → ¬ IsIn i k
  later_none n i miss h zero less inside = miss (IsIn-Hits i inside)
  later_none n i miss h (suc k) less inside = h k (omega arith) (suc-IsIn i k inside)

  Answer-suc :
      (n i : ℕ) (o : Option ℕ) → ¬ Hits i → Answer n (i + (ac + pc + sc)) o → Answer (suc n) i o
  unfolding Answer
  Answer-suc n i none miss h = later_none n i miss h
  Answer-suc n i (some a) miss h = record {
    entry = suc h.entry;
    there = omega (arith, h.there);
    inside = IsIn-suc i h.entry h.inside;
    first = later_none h.entry i miss h.first;
    address =
        h.address
        ∙ ap (λ c. u64 (read_cells p (c + ac) pc 0 + (addr - read_cells p c ac 0)))
            (again i h.entry);
  }

  match_ranges-Answer : (n i : ℕ) → Answer n i (match_ranges p ac pc sc addr n i)
  unfolding match_ranges Answer
  match_ranges-Answer zero i = λ k less. absurd (omega arith)
  match_ranges-Answer (suc n) i =
      let c = read_cells p i ac 0 in
      let z = read_cells p (i + ac + pc) sc 0 in
      elim (Bool-cases (leb c addr && ltb (addr - c) z)) [
        | inl hit ↦
            let window : Hits i = ground arith in
            rw hit (record {
              entry = 0;
              there = omega arith;
              inside = Hits-IsIn i window;
              first = λ k less. absurd (omega arith);
              address =
                  ap (λ c. u64 (read_cells p (c + ac) pc 0 + (addr - read_cells p c ac 0)))
                    (sym (start i));
            })
        | inr miss ↦
            let past : ¬ Hits i = λ h. absurd (ground arith) in
            rw miss (Answer-suc n i _ past (match_ranges-Answer n (i + (ac + pc + sc))))
      ]

  Moved-unique : (n i a b : ℕ) → Moved n i a → Moved n i b → a ≡ b
  Moved-unique n i a b m w =
      let same : m.entry ≡ w.entry = elim (Bool-cases (ltb m.entry w.entry)) [
        | inl less ↦ absurd (w.first m.entry (ground arith) m.inside)
        | inr notless ↦ elim (Bool-cases (ltb w.entry m.entry)) [
          | inl more ↦ absurd (m.first w.entry (ground arith) w.inside)
          | inr notmore ↦ ground arith
        ]
      ] in
      m.address ∙ ap (λ k. u64 (parent i k + (addr - child i k))) same ∙ sym w.address

  match_ranges-Moved : (n i a : ℕ) → match_ranges p ac pc sc addr n i ≡ some a → Moved n i a
  unfolding Answer
  match_ranges-Moved n i a e = subst (Answer n i) e (match_ranges-Answer n i)

  Moved-match_ranges : (n i a : ℕ) → Moved n i a → match_ranges p ac pc sc addr n i ≡ some a
  unfolding Answer
  Moved-match_ranges n i a m = elim (Option-cases (match_ranges p ac pc sc addr n i)) [
    | inl e ↦ absurd (subst (Answer n i) e (match_ranges-Answer n i) m.entry m.there m.inside)
    | inr (b, e) ↦ e ∙ ap some (Moved-unique n i b a (match_ranges-Moved n i b e) m)
  ]

-- An address through "ranges": moved by its entries, or the same where it has none or is not there.
pub data Across (ac pc sc addr : ℕ) : Option Property → ℕ → Type 0 where
  unchanged : (a : ℕ) → a ≡ addr → Across ac pc sc addr none a
  empty : (prop : Property) (a : ℕ) → prop.len ≡ 0 → a ≡ addr → Across ac pc sc addr (some prop) a
  moved :
      (prop : Property) (a : ℕ)
      → prop.len ≢ 0
      → Moved prop.bytes ac pc sc addr (prop.len / ((ac + pc + sc) * 4)) 0 a
      → Across ac pc sc addr (some prop) a

through-Across :
    (ac pc sc addr a : ℕ) (o : Option Property)
    → through o ac pc sc addr ≡ some a
    → Across ac pc sc addr o a
through-Across ac pc sc addr a none e = unchanged a (sym (some-eq e))
through-Across ac pc sc addr a (some prop) e = elim (Bool-cases (prop.len == 0)) [
  | inl none' ↦ empty prop a (ground arith) (ground arith)
  | inr full ↦
      moved prop a (λ z. absurd (ground arith))
        (match_ranges-Moved prop.bytes ac pc sc addr _ 0 a (rw full at e))
]

Across-through :
    (ac pc sc addr a : ℕ) (o : Option Property)
    → Across ac pc sc addr o a
    → through o ac pc sc addr ≡ some a
Across-through ac pc sc addr a none (unchanged _ e) = ap some (sym e)
Across-through ac pc sc addr a (some prop) (empty _ _ none' e) = rw none' (ap some (sym e))
Across-through ac pc sc addr a (some prop) (moved _ _ full m) =
    rw (==_ne prop.len 0 full) (Moved-match_ranges prop.bytes ac pc sc addr _ 0 a m)

-- One bus up: the parent's cell counts are in range, and its "ranges" give the address there.
pub record IsUp (fdt : FdtLib) (p q : Place) : Type 0 where
  pub parent : fdt.parent_offset p.bus ≡ some q.bus
  pub address_cells : (fdt.address_cells q.bus ≡ some q.ac) × (1 ≤ q.ac) × (q.ac ≤ 2)
  pub size_cells : (fdt.size_cells q.bus ≡ some q.sc) × (q.sc ≤ 2)
  pub across : Across p.ac q.ac p.sc p.addr (fdt.get_prop p.bus ranges_name) q.addr

between-some :
    (lo hi n : ℕ) (o : Option ℕ) → between lo hi o ≡ some n → (o ≡ some n) × (lo ≤ n) × (n ≤ hi)
between-some lo hi n none e = absurd (cc)
between-some lo hi n (some m) e = ground arith

some-between :
    (lo hi n : ℕ) (o : Option ℕ) → o ≡ some n → lo ≤ n → n ≤ hi → between lo hi o ≡ some n
some-between lo hi n none e l h = absurd (cc)
some-between lo hi n (some m) e l h = ground arith

pub >>=-eq-some :
    {A B : Type 0} (o : Option A) (f : A → Option B) {b : B}
    → (o >>= f) ≡ some b
    → (a : A) × (o ≡ some a) × (f a ≡ some b)
>>=-eq-some none f e = absurd (cc)
>>=-eq-some (some a) f e = (a, refl, e)

module _ (fdt : FdtLib) (p q : Place) where
  pub step_up-IsUp : step_up fdt p ≡ some q → IsUp fdt p q
  unfolding step_up
  step_up-IsUp e =
      let (parent, above, e1) = >>=-eq-some (fdt.parent_offset p.bus) _ e in
      let (pc, has_pc, e2) = >>=-eq-some (between 1 2 (fdt.address_cells parent)) _ e1 in
      let (addr, has_addr, e3) =
        >>=-eq-some (through (fdt.get_prop p.bus ranges_name) p.ac pc p.sc p.addr) _ e2 in
      let (sc, has_sc, e4) = >>=-eq-some (between 0 2 (fdt.size_cells parent)) _ e3 in
      let up : IsUp fdt p (record { bus = parent; ac = pc; sc = sc; addr = addr }) = record {
        parent = above;
        address_cells = between-some 1 2 pc (fdt.address_cells parent) has_pc;
        size_cells =
            let (known, lo, hi) = between-some 0 2 sc (fdt.size_cells parent) has_sc in (known, hi);
        across = through-Across p.ac pc p.sc p.addr addr (fdt.get_prop p.bus ranges_name) has_addr;
      } in
      subst (IsUp fdt p) (some-eq e4) up

  pub IsUp-step_up : IsUp fdt p q → step_up fdt p ≡ some q
  unfolding step_up
  IsUp-step_up u =
      let (pc, lo, hi) = u.address_cells in
      let (sc, top) = u.size_cells in
      rw
        (
          u.parent,
          some-between 1 2 q.ac (fdt.address_cells q.bus) pc lo hi,
          Across-through p.ac q.ac p.sc p.addr q.addr (fdt.get_prop p.bus ranges_name) u.across,
          some-between 0 2 q.sc (fdt.size_cells q.bus) sc (omega arith) top,
        )
        refl

-- The first entry of a node's "reg" on a bus: its place and its size.
pub record IsReg (fdt : FdtLib) (node bus : ℕ) (p : Place) (size : ℕ) : Type 0 where
  pub on_bus : p.bus ≡ bus
  pub address_cells : (fdt.address_cells bus ≡ some p.ac) × (1 ≤ p.ac) × (p.ac ≤ 2)
  pub size_cells : (fdt.size_cells bus ≡ some p.sc) × (p.sc ≤ 2)
  pub prop : Property
  pub has_reg : fdt.get_prop node reg_name ≡ some prop
  pub long_enough : (p.ac + p.sc) * 4 ≤ prop.len
  pub address : p.addr ≡ read_cells prop.bytes 0 p.ac 0
  pub length : size ≡ read_cells prop.bytes p.ac p.sc 0

module _ (fdt : FdtLib) (node bus : ℕ) (p : Place) (size : ℕ) where
  pub first_reg-IsReg : first_reg fdt node bus ≡ some (p, size) → IsReg fdt node bus p size
  unfolding first_reg
  first_reg-IsReg e =
      let (ac, has_ac, e1) = >>=-eq-some (between 1 2 (fdt.address_cells bus)) _ e in
      let (sc, has_sc, e2) = >>=-eq-some (between 0 2 (fdt.size_cells bus)) _ e1 in
      let (prop, has_prop, e3) = >>=-eq-some (fdt.get_prop node reg_name) _ e2 in
      let (known, lo, hi) = between-some 0 2 sc (fdt.size_cells bus) has_sc in
      let place : Place = record {
        bus = bus;
        ac = ac;
        sc = sc;
        addr = read_cells prop.bytes 0 ac 0;
      } in
      let whole : Place × ℕ = (place, read_cells prop.bytes ac sc 0) in
      elim (Bool-cases (ltb prop.len ((ac + sc) * 4))) [
        | inl short ↦ absurd (cc (rw short at e3))
        | inr long ↦
            let same : whole ≡ (p, size) = some-eq (rw long at e3) in
            let reg : IsReg fdt node bus whole.0 whole.1 = record {
              on_bus = refl;
              address_cells = between-some 1 2 ac (fdt.address_cells bus) has_ac;
              size_cells = (known, hi);
              prop = prop;
              has_reg = has_prop;
              long_enough = ground arith;
              address = refl;
              length = refl;
            } in
            subst (λ (x : Place × ℕ). IsReg fdt node bus x.0 x.1) same reg
      ]
