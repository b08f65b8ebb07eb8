-- ===== src/Bdp/Arp/Lookup.antt =====
-- Virtual numbers and physical addresses: each finds the other, through every update of the table.
use emulation_lib.Prelude.{
  ℕ, ◌<◌, true, false, some, List, ◌≡◌, ◌≢◌, inl, inr, arith, refl, ap, ◌∙◌, leb, Bool-cases,
  Option-cases,
}
use emulation_lib.Err.{pass}
use emulation_lib.Bdp.Types.{bdp_max, bdp_num_all}
use emulation_lib.Bdp.Arp.{
  Table, addr_at, find_addr, zero_addr, invalid_addr, or_fail, svs_bdp_physical_to_virtual,
  svs_bdp_virtual_to_physical,
}
use emulation_lib.Bdp.Arp.Find.{find_addr_found, find_addr_missed, memcmp_self}
use emulation_lib.Bdp.Arp.Valid.{IsValid}

zero-invalid : (broadcast : List ℕ) → invalid_addr broadcast zero_addr ≡ true
unfolding invalid_addr
zero-invalid broadcast = rw (memcmp_self zero_addr)

broadcast-invalid : (broadcast : List ℕ) → invalid_addr broadcast broadcast ≡ true
unfolding invalid_addr
broadcast-invalid broadcast = ground (arith, memcmp_self broadcast)

pub lookup_inv :
    (broadcast : List ℕ) (t : Table) (addr : List ℕ) (i : ℕ)
    → svs_bdp_physical_to_virtual broadcast t (some addr) ≡ (pass, some i)
    → (invalid_addr broadcast addr ≡ false) × (find_addr bdp_max 0 t.bdp_state addr ≡ some i)
unfolding svs_bdp_physical_to_virtual or_fail
lookup_inv broadcast t addr i h = ground arith

pub lookup_intro :
    (broadcast : List ℕ) (t : Table) (addr : List ℕ) (i : ℕ)
    → invalid_addr broadcast addr ≡ false
    → find_addr bdp_max 0 t.bdp_state addr ≡ some i
    → svs_bdp_physical_to_virtual broadcast t (some addr) ≡ (pass, some i)
unfolding svs_bdp_physical_to_virtual or_fail
lookup_intro broadcast t addr i fine found = ground arith

module _ (broadcast : List ℕ) (t : Table) (v : IsValid broadcast t) where
  -- Only an address in use can be found.
  pub in_use :
      (addr : List ℕ) (i : ℕ)
      → invalid_addr broadcast addr ≡ false
      → addr_at t.bdp_state i ≡ addr
      → i < t.count
  in_use addr i fine e = elim (Bool-cases (leb t.count i)) [
    | inl out ↦ cc (zero-invalid broadcast, fine, e, v.unused i (ground arith))
    | inr in_ ↦ ground arith
  ]

  -- A lookup that succeeds gives the number of the entry with that address.
  pub lookup_sound :
      (addr : List ℕ) (i : ℕ)
      → svs_bdp_physical_to_virtual broadcast t (some addr) ≡ (pass, some i)
      → (i < t.count) × (addr_at t.bdp_state i ≡ addr)
  lookup_sound addr i h =
      let (fine, found) = lookup_inv broadcast t addr i h in
      let here : addr_at t.bdp_state i ≡ addr =
        (find_addr_found bdp_max 0 i t.bdp_state addr found).2 in
      (in_use addr i fine here, here)

  -- In a valid table every entry in use is found by its address, under its own number.
  pub lookup_used :
      (i : ℕ)
      → i < t.count
      → svs_bdp_physical_to_virtual broadcast t (some (addr_at t.bdp_state i)) ≡ (pass, some i)
  lookup_used i h = elim (Option-cases (find_addr bdp_max 0 t.bdp_state (addr_at t.bdp_state i))) [
    | inl missed ↦ absurd (
        find_addr_missed bdp_max 0 i t.bdp_state (addr_at t.bdp_state i) missed (omega arith)
          (omega (arith, v.fits)) refl)
    | inr (k, found) ↦
        lookup_intro broadcast t (addr_at t.bdp_state i) i (v.used i h)
          (found ∙ ap some (same k (find_addr_found bdp_max 0 k t.bdp_state _ found).2))
  ]
    where
      same : (k : ℕ) → addr_at t.bdp_state k ≡ addr_at t.bdp_state i → k ≡ i
      same k e = v.distinct k i (in_use (addr_at t.bdp_state i) k (v.used i h) e) h e

  -- In a valid table, where a physical address gives a number other than the broadcast number, that
  -- number gives the address back.
  pub virtual_to_physical-physical_to_virtual :
      (addr : List ℕ) (i : ℕ)
      → svs_bdp_physical_to_virtual broadcast t (some addr) ≡ (pass, some i)
      → i ≢ bdp_num_all
      → svs_bdp_virtual_to_physical broadcast t i ≡ (pass, some addr)
  unfolding svs_bdp_virtual_to_physical
  virtual_to_physical-physical_to_virtual addr i h ne = ground (arith, lookup_sound addr i h)

  -- In a valid table, an address that gives the broadcast number is not the broadcast address, but its
  -- number gives the broadcast address back: the device is out of reach.
  pub virtual_to_physical_shadowed :
      (addr : List ℕ)
      → svs_bdp_physical_to_virtual broadcast t (some addr) ≡ (pass, some bdp_num_all)
      → (svs_bdp_virtual_to_physical broadcast t bdp_num_all ≡ (pass, some broadcast))
        × (addr ≢ broadcast)
  unfolding svs_bdp_virtual_to_physical
  virtual_to_physical_shadowed addr h = (
    ground arith,
    λ e. cc (e, (lookup_inv broadcast t addr bdp_num_all h).0, broadcast-invalid broadcast),
  )
