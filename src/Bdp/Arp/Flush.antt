-- ===== src/Bdp/Arp/Flush.antt =====
-- The counts of the two buses beside the count of the table, and what a flush does to them.
use emulation_lib.Prelude.{ℕ, ◌+◌, ◌<◌, some, List, ◌≡◌, ◌≢◌, arith}
use emulation_lib.Err.{Err, pass}
use emulation_lib.Bdp.Types.{bdp_max}
use emulation_lib.Bdp.Arp.{
  Table, with_entry, svs_bdp_arp_table_update, svs_arp_table_flush, svs_bdp_physical_to_virtual,
}
use emulation_lib.Bdp.Arp.Valid.{IsValid, svs_arp_table_flush-IsValid, flush-count}
use emulation_lib.Bdp.Arp.Lookup.{lookup_sound}
use emulation_lib.Bdp.Arp.Outcome.{Outcome, refused, known, full, added, update-Outcome}

-- The totals that the server logs agree.
abbrev pub Agree : Table → Type 0
Agree t = t.bus_count 0 + t.bus_count 1 ≡ t.count

with_entry-Agree :
    (t : Table) (bus : ℕ) (addr : List ℕ)
    → bus < 2
    → t.count < bdp_max
    → Agree t
    → Agree (with_entry t bus addr)
unfolding with_entry
with_entry-Agree t bus addr h room a = ground arith

-- Where the counts of the two buses add up to that of the table, they still do after an update from
-- either bus.
pub update-Agree :
    (broadcast : List ℕ) (t : Table) (bus : ℕ) (addr : List ℕ)
    → bus < 2
    → Agree t
    → Agree (svs_bdp_arp_table_update broadcast t bus (some addr)).1
update-Agree broadcast t bus addr h a = go (update-Outcome broadcast t bus addr)
  where
    go : {r : Err × Table} → Outcome broadcast t bus addr r → Agree r.1
    go (refused bad e) = rw e a
    go (known i fine k at e) = rw e a
    go (full k nowhere e) = rw e a
    go (added fine room nowhere e) = rw e (with_entry-Agree t bus addr h room a)

-- Where the counts of the two buses add up to that of a table in use, they no longer do after a flush.
pub flush_counts : (t : Table) → Agree t → 0 < t.count → ¬ Agree (svs_arp_table_flush t)
unfolding svs_arp_table_flush
flush_counts t a h b = absurd (omega arith)

-- After a flush of a valid table no address is found.
pub flush_forgets :
    (broadcast : List ℕ) (t : Table) (addr : List ℕ) (i : ℕ)
    → IsValid broadcast t
    → svs_bdp_physical_to_virtual broadcast (svs_arp_table_flush t) (some addr) ≢ (pass, some i)
flush_forgets broadcast t addr i v h = absurd (
    omega (
      arith,
      flush-count t,
      (lookup_sound broadcast (svs_arp_table_flush t) (svs_arp_table_flush-IsValid broadcast t v)
          addr i h).0,
    ))
