-- ===== src/Bdp/Arp/Outcome.antt =====
-- The four ways an update of the table can go.
use emulation_lib.Prelude.{
  ℕ, ◌≤◌, ◌<◌, true, false, none, some, List, ◌≡◌, ◌≢◌, inl, inr, arith, ◌∙◌, leb, Bool-cases,
  Option-cases,
}
use emulation_lib.Err.{Err, pass, fail}
use emulation_lib.Bdp.Types.{bdp_max}
use emulation_lib.Bdp.Arp.{
  Table, addr_at, find_addr, invalid_addr, add_entry, with_entry, found_or_add,
  svs_bdp_arp_table_update,
}
use emulation_lib.Bdp.Arp.Find.{find_addr_found, find_addr_missed}

-- The four ways that the update can go.
pub data Outcome (broadcast : List ℕ) (t : Table) (bus : ℕ) (addr : List ℕ)
    : Err × Table → Type 0 where
  refused :
      {r : Err × Table}
      → invalid_addr broadcast addr ≡ true
      → r ≡ (fail, t)
      → Outcome broadcast t bus addr r
  known :
      {r : Err × Table} (i : ℕ)
      → invalid_addr broadcast addr ≡ false
      → i < t.count
      → addr_at t.bdp_state i ≡ addr
      → r ≡ (pass, t)
      → Outcome broadcast t bus addr r
  full :
      {r : Err × Table}
      → bdp_max ≤ t.count
      → ((k : ℕ) → k < t.count → addr_at t.bdp_state k ≢ addr)
      → r ≡ (fail, t)
      → Outcome broadcast t bus addr r
  added :
      {r : Err × Table}
      → invalid_addr broadcast addr ≡ false
      → t.count < bdp_max
      → ((k : ℕ) → k < t.count → addr_at t.bdp_state k ≢ addr)
      → r ≡ (pass, with_entry t bus addr)
      → Outcome broadcast t bus addr r

update_refused :
    (broadcast : List ℕ) (t : Table) (bus : ℕ) (addr : List ℕ)
    → invalid_addr broadcast addr ≡ true
    → svs_bdp_arp_table_update broadcast t bus (some addr) ≡ (fail, t)
unfolding svs_bdp_arp_table_update
update_refused broadcast t bus addr bad = rw bad

module _ (broadcast : List ℕ) (t : Table) (bus : ℕ) (addr : List ℕ)
    (fine : invalid_addr broadcast addr ≡ false) where
  update_known :
      (i : ℕ)
      → find_addr t.count 0 t.bdp_state addr ≡ some i
      → svs_bdp_arp_table_update broadcast t bus (some addr) ≡ (pass, t)
  unfolding svs_bdp_arp_table_update
  update_known i found = rw (fine, found, found_or_add)

  update_missed :
      find_addr t.count 0 t.bdp_state addr ≡ none
      → svs_bdp_arp_table_update broadcast t bus (some addr) ≡ add_entry t bus addr
  unfolding svs_bdp_arp_table_update
  update_missed missed = rw (fine, missed, found_or_add)

add_entry_full :
    (t : Table) (bus : ℕ) (addr : List ℕ) → bdp_max ≤ t.count → add_entry t bus addr ≡ (fail, t)
unfolding add_entry
add_entry_full t bus addr h = ground arith

add_entry_room :
    (t : Table) (bus : ℕ) (addr : List ℕ)
    → t.count < bdp_max
    → add_entry t bus addr ≡ (pass, with_entry t bus addr)
unfolding add_entry
add_entry_room t bus addr h = ground arith

-- One of the four holds of every update.
pub update-Outcome :
    (broadcast : List ℕ) (t : Table) (bus : ℕ) (addr : List ℕ)
    → Outcome broadcast t bus addr (svs_bdp_arp_table_update broadcast t bus (some addr))
update-Outcome broadcast t bus addr = elim (Bool-cases (invalid_addr broadcast addr)) [
  | inl bad ↦ refused bad (update_refused broadcast t bus addr bad)
  | inr fine ↦ elim (Option-cases (find_addr t.count 0 t.bdp_state addr)) [
    | inr (i, found) ↦
        let hit = find_addr_found t.count 0 i t.bdp_state addr found in
        known i fine (omega (arith, hit.1)) hit.2 (update_known broadcast t bus addr fine i found)
    | inl missed ↦ elim (Bool-cases (leb bdp_max t.count)) [
      | inl no_room ↦ full (ground arith) (nowhere missed) (
          update_missed broadcast t bus addr fine missed ∙ add_entry_full t bus addr (ground arith))
      | inr room ↦ added fine (ground arith) (nowhere missed) (
          update_missed broadcast t bus addr fine missed ∙ add_entry_room t bus addr (ground arith))
    ]
  ]
]
  where
    nowhere :
        find_addr t.count 0 t.bdp_state addr ≡ none
        → (k : ℕ) → k < t.count
        → addr_at t.bdp_state k ≢ addr
    nowhere missed k h =
        find_addr_missed t.count 0 k t.bdp_state addr missed (omega arith) (omega arith)
