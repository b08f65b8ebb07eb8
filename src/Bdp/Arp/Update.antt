-- ===== src/Bdp/Arp/Update.antt =====
-- What registering an address changes, on every branch.
use emulation_lib.Prelude.{
  ℕ, ◌+◌, ◌≤◌, ◌<◌, true, false, some, List, ◌≡◌, ◌≢◌, ◌⊎◌, inl, inr, ◌↔◌, arith, ap, sym, ◌∙◌,
  if◌then◌else◌, ◌==◌,
}
use emulation_lib.Err.{Err, pass, fail}
use emulation_lib.Bdp.Types.{bdp_max}
use emulation_lib.Bdp.Arp.{
  Table, addr_at, invalid_addr, with_entry, svs_bdp_arp_table_update, svs_bdp_physical_to_virtual,
}
use emulation_lib.Bdp.Arp.Valid.{IsValid, with_entry-IsValid, addr_at-new}
use emulation_lib.Bdp.Arp.Lookup.{lookup_sound, lookup_used, lookup_inv}
use emulation_lib.Bdp.Arp.Outcome.{Outcome, refused, known, full, added, update-Outcome}

fail-ne-pass : fail ≢ pass
fail-ne-pass e = cc

-- The new entry is where the last one was missing, and the others are where they were.
with_entry-count :
    (t : Table) (bus : ℕ) (addr : List ℕ)
    → t.count < bdp_max
    → (with_entry t bus addr).count ≡ t.count + 1
unfolding with_entry
with_entry-count t bus addr h = omega arith

module _ (broadcast : List ℕ) (t : Table) (bus : ℕ) (addr : List ℕ) (v : IsValid broadcast t) where
  module _ (fine : invalid_addr broadcast addr ≡ false) (room : t.count < bdp_max)
      (fresh : (k : ℕ) → k < t.count → addr_at t.bdp_state k ≢ addr) where
    grown-IsValid : IsValid broadcast (with_entry t bus addr)
    grown-IsValid = with_entry-IsValid broadcast t bus addr v fine room fresh

    grown_at :
        (k : ℕ)
        → addr_at (with_entry t bus addr).bdp_state k
          ≡ (if k == t.count then addr else addr_at t.bdp_state k)
    unfolding with_entry
    grown_at k = addr_at-new broadcast t bus addr v fine room fresh k

    grown_lookup :
        svs_bdp_physical_to_virtual broadcast (with_entry t bus addr) (some addr)
        ≡ (pass, some t.count)
    grown_lookup = rw (grown_at_end) at (
        lookup_used broadcast (with_entry t bus addr) grown-IsValid t.count
          (omega (arith, with_entry-count t bus addr room)))
      where
        grown_at_end : addr_at (with_entry t bus addr).bdp_state t.count ≡ addr
        grown_at_end = ground (arith, grown_at t.count)

    grown_keeps :
        (a : List ℕ) (i : ℕ)
        → svs_bdp_physical_to_virtual broadcast t (some a) ≡ (pass, some i)
        → svs_bdp_physical_to_virtual broadcast (with_entry t bus addr) (some a) ≡ (pass, some i)
    grown_keeps a i h = rw (grown_at_old) at (
        lookup_used broadcast (with_entry t bus addr) grown-IsValid i
          (omega (arith, with_entry-count t bus addr room, old.0)))
      where
        old : (i < t.count) × (addr_at t.bdp_state i ≡ a)
        old = lookup_sound broadcast t v a i h

        grown_at_old : addr_at (with_entry t bus addr).bdp_state i ≡ a
        grown_at_old = ground (arith, grown_at i, old.0, old.1)

  registered :
      (r : Err × Table)
      → Outcome broadcast t bus addr r
      → r.0 ≡ pass
      → (i : ℕ) × (svs_bdp_physical_to_virtual broadcast r.1 (some addr) ≡ (pass, some i))
  registered r (refused bad e) p = absurd (fail-ne-pass (sym (ap (λ q. q.0) e) ∙ p))
  registered r (known i fine h at e) p = (i, rw e (rw at at (lookup_used broadcast t v i h)))
  registered r (full h none_ e) p = absurd (fail-ne-pass (sym (ap (λ q. q.0) e) ∙ p))
  registered r (added fine h fresh e) p = (t.count, rw e (grown_lookup fine h fresh))

  keeps :
      (r : Err × Table)
      → Outcome broadcast t bus addr r
      → (a : List ℕ) (i : ℕ) → svs_bdp_physical_to_virtual broadcast t (some a) ≡ (pass, some i)
      → svs_bdp_physical_to_virtual broadcast r.1 (some a) ≡ (pass, some i)
  keeps r (refused bad e) a i h = rw e h
  keeps r (known j fine k at e) a i h = rw e h
  keeps r (full k none_ e) a i h = rw e h
  keeps r (added fine k fresh e) a i h = rw e (grown_keeps fine k fresh a i h)

-- An address that the update of a valid table accepts is found by a lookup in the new table.
pub update_then_lookup :
    (broadcast : List ℕ) (t : Table) (bus : ℕ) (addr : List ℕ)
    → IsValid broadcast t
    → (svs_bdp_arp_table_update broadcast t bus (some addr)).0 ≡ pass
    → (i : ℕ) × (svs_bdp_physical_to_virtual broadcast
          (svs_bdp_arp_table_update broadcast t bus (some addr)).1
          (some addr)
        ≡ (pass, some i))
update_then_lookup broadcast t bus addr v =
    registered broadcast t bus addr v _ (update-Outcome broadcast t bus addr)

-- An address that is found in a valid table is found under the same number after an update of any
-- address, accepted or not.
pub update_keeps_lookup :
    (broadcast : List ℕ) (t : Table) (bus : ℕ) (addr a : List ℕ) (i : ℕ)
    → IsValid broadcast t
    → svs_bdp_physical_to_virtual broadcast t (some a) ≡ (pass, some i)
    → svs_bdp_physical_to_virtual broadcast
        (svs_bdp_arp_table_update broadcast t bus (some addr)).1
        (some a)
      ≡ (pass, some i)
update_keeps_lookup broadcast t bus addr a i v =
    keeps broadcast t bus addr v _ (update-Outcome broadcast t bus addr) a i

-- An address that can be looked up in a valid table is not registered a second time: the update
-- succeeds and leaves the table as it is.
pub update_known_address :
    (broadcast : List ℕ) (t : Table) (bus : ℕ) (addr : List ℕ) (i : ℕ)
    → IsValid broadcast t
    → svs_bdp_physical_to_virtual broadcast t (some addr) ≡ (pass, some i)
    → svs_bdp_arp_table_update broadcast t bus (some addr) ≡ (pass, t)
update_known_address broadcast t bus addr i v h =
    go (lookup_sound broadcast t v addr i h) (lookup_inv broadcast t addr i h).0
      (update-Outcome broadcast t bus addr)
  where
    go :
        (i < t.count) × (addr_at t.bdp_state i ≡ addr)
        → invalid_addr broadcast addr ≡ false
        → {r : Err × Table} → Outcome broadcast t bus addr r
        → r ≡ (pass, t)
    go at fine (refused bad e) = cc
    go at fine (known j fine' k here e) = e
    go at fine (full k nowhere e) = absurd (nowhere i at.0 at.1)
    go at fine (added fine' k nowhere e) = absurd (nowhere i at.0 at.1)

-- The two reasons to refuse a registration.
abbrev pub Refusal : List ℕ → Table → List ℕ → Type 0
Refusal broadcast t addr =
    (invalid_addr broadcast addr ≡ true)
    ⊎ ((bdp_max ≤ t.count) × ((k : ℕ) → k < t.count → addr_at t.bdp_state k ≢ addr))

-- An update fails exactly where the address is the zero or the broadcast address, or where the table is
-- full and no entry in use has it.
pub update_fails_iff :
    (broadcast : List ℕ) (t : Table) (bus : ℕ) (addr : List ℕ)
    → ((svs_bdp_arp_table_update broadcast t bus (some addr)).0 ≡ fail) ↔ Refusal broadcast t addr
update_fails_iff broadcast t bus addr =
    (fails (update-Outcome broadcast t bus addr), failing (update-Outcome broadcast t bus addr))
  where
    fails :
        {r : Err × Table} → Outcome broadcast t bus addr r → r.0 ≡ fail → Refusal broadcast t addr
    fails (refused bad e) f = inl bad
    fails (known i fine h at e) f = absurd (fail-ne-pass (sym f ∙ ap (λ q. q.0) e))
    fails (full h nowhere e) f = inr (h, nowhere)
    fails (added fine h nowhere e) f = absurd (fail-ne-pass (sym f ∙ ap (λ q. q.0) e))

    failing :
        {r : Err × Table} → Outcome broadcast t bus addr r → Refusal broadcast t addr → r.0 ≡ fail
    failing (refused bad e) w = ap (λ q. q.0) e
    failing (full h nowhere e) w = ap (λ q. q.0) e
    failing (known i fine h at e) (inl bad) = cc
    failing (known i fine h at e) (inr (m, nowhere)) = absurd (nowhere i h at)
    failing (added fine h nowhere e) (inl bad) = cc
    failing (added fine h nowhere e) (inr (m, _)) = absurd (omega arith)
