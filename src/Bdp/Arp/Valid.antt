-- ===== src/Bdp/Arp/Valid.antt =====
-- What the table of dock points keeps: no address twice, none that is refused, none behind the last.
use emulation_lib.Prelude.{
  ℕ, zero, suc, ◌+◌, ◌≤◌, ◌<◌, false, Option, none, some, List, ◌≡◌, ◌≢◌, ◌⊎◌, inl, inr, arith,
  refl, ◌∙◌, get_or, set, length, length-set, if◌then◌else◌, ◌==◌, leb, Bool-cases, Option-cases,
}
use emulation_lib.Bdp.Types.{bdp_max}
use emulation_lib.Bdp.Arp.{
  BdpState, Table, addr_at, blank, find_addr, zero_addr, invalid_addr, add_entry, found_or_add,
  arp_table_update, svs_bdp_arp_table_update, clear_entry, clear_addrs, svs_arp_table_flush,
  with_entry,
}
use emulation_lib.Bdp.Arp.Find.{find_addr_missed, addr_at-set}

pub record IsValid (broadcast : List ℕ) (t : Table) : Type 0 where
  pub size : length t.bdp_state ≡ bdp_max
  pub fits : t.count ≤ bdp_max
  pub unused : (i : ℕ) → t.count ≤ i → addr_at t.bdp_state i ≡ zero_addr
  pub used : (i : ℕ) → i < t.count → invalid_addr broadcast (addr_at t.bdp_state i) ≡ false
  pub distinct :
      (i j : ℕ) → i < t.count → j < t.count → addr_at t.bdp_state i ≡ addr_at t.bdp_state j → i ≡ j

module _ (broadcast : List ℕ) (t : Table) (bus : ℕ) (addr : List ℕ) (v : IsValid broadcast t)
    (fine : invalid_addr broadcast addr ≡ false) (room : t.count < bdp_max)
    (fresh : (k : ℕ) → k < t.count → addr_at t.bdp_state k ≢ addr) where
  abbrev pub new_state : List BdpState
  new_state =
      set t.bdp_state t.count
        (record (get_or t.bdp_state t.count blank) { bdp_addr = addr; bdp_bus = bus })

  pub addr_at-new :
      (i : ℕ) → addr_at new_state i ≡ (if i == t.count then addr else addr_at t.bdp_state i)
  addr_at-new i = addr_at-set t.bdp_state t.count i _ (omega (arith, v.size))

  pub with_entry-IsValid : IsValid broadcast (with_entry t bus addr)
  unfolding with_entry
  with_entry-IsValid = record {
    size = length-set t.bdp_state t.count _ ∙ v.size;
    fits = omega arith;
    unused = λ i h. ground (arith, addr_at-new i, v.unused i);
    used = λ i h. ground (arith, addr_at-new i, v.used i);
    distinct = λ i j hi hj e.
        ground (arith, addr_at-new i, addr_at-new j, v.distinct i j, fresh i, fresh j);
  }

add_entry-IsValid :
    (broadcast : List ℕ) (t : Table) (bus : ℕ) (addr : List ℕ)
    → IsValid broadcast t
    → invalid_addr broadcast addr ≡ false
    → ((k : ℕ) → k < t.count → addr_at t.bdp_state k ≢ addr)
    → IsValid broadcast (add_entry t bus addr).1
unfolding add_entry
add_entry-IsValid broadcast t bus addr v fine fresh = elim (Bool-cases (leb bdp_max t.count)) [
  | inl full ↦ rw full v
  | inr room ↦ rw room (with_entry-IsValid broadcast t bus addr v fine (ground arith) fresh)
]

-- Registering an address, whatever comes of it, keeps a table valid: no address twice, none that is
-- refused, none behind the last.
pub svs_bdp_arp_table_update-IsValid :
    (broadcast : List ℕ) (t : Table) (bus : ℕ) (addr : Option (List ℕ))
    → IsValid broadcast t
    → IsValid broadcast (svs_bdp_arp_table_update broadcast t bus addr).1
unfolding svs_bdp_arp_table_update arp_table_update found_or_add
svs_bdp_arp_table_update-IsValid broadcast t bus none v = v
svs_bdp_arp_table_update-IsValid broadcast t bus (some addr) v =
    elim (Bool-cases (invalid_addr broadcast addr)) [
      | inl bad ↦ rw bad v
      | inr fine ↦ rw fine (elim (Option-cases (find_addr t.count 0 t.bdp_state addr)) [
        | inl missed ↦
            rw (missed, found_or_add)
              (add_entry-IsValid broadcast t bus addr v fine (λ k h.
                find_addr_missed t.count 0 k t.bdp_state addr missed (omega arith) (omega arith)))
        | inr (i, found) ↦ rw (found, found_or_add) v
      ])
    ]

length-clear_entry : (state : List BdpState) (i : ℕ) → length (clear_entry state i) ≡ length state
unfolding clear_entry
length-clear_entry state i = length-set state i _

addr_at-clear_entry :
    (state : List BdpState) (i k : ℕ)
    → i < length state
    → addr_at (clear_entry state i) k ≡ (if k == i then zero_addr else addr_at state k)
unfolding clear_entry
addr_at-clear_entry state i k h = addr_at-set state i k _ h

length-clear_addrs :
    (n i : ℕ) (state : List BdpState) → length (clear_addrs n i state) ≡ length state
unfolding clear_addrs
length-clear_addrs zero i state = refl
length-clear_addrs (suc n) i state =
    length-clear_addrs n (i + 1) (clear_entry state i) ∙ length-clear_entry state i

addr_at-clear_addrs :
    (n i k : ℕ) (state : List BdpState)
    → i + n ≤ length state
    → (k < i) ⊎ (i + n ≤ k)
    → addr_at (clear_addrs n i state) k ≡ addr_at state k
unfolding clear_addrs
addr_at-clear_addrs zero i k state h o = refl
addr_at-clear_addrs (suc n) i k state h o = ground (
  arith,
  length-clear_entry state i,
  addr_at-clear_entry state i k,
  addr_at-clear_addrs n (i + 1) k (clear_entry state i),
)

addr_at-cleared :
    (n i k : ℕ) (state : List BdpState)
    → i + n ≤ length state
    → i ≤ k
    → k < i + n
    → addr_at (clear_addrs n i state) k ≡ zero_addr
unfolding clear_addrs
addr_at-cleared zero i k state h p q = absurd (omega arith)
addr_at-cleared (suc n) i k state h p q = ground (
  arith,
  length-clear_entry state i,
  addr_at-clear_entry state i k,
  addr_at-cleared n (i + 1) k (clear_entry state i),
  addr_at-clear_addrs n (i + 1) k (clear_entry state i),
)

-- A flush clears every address, whether it was in use or not.
pub addr_at-flush :
    (broadcast : List ℕ) (t : Table) (k : ℕ)
    → IsValid broadcast t
    → addr_at (svs_arp_table_flush t).bdp_state k ≡ zero_addr
unfolding svs_arp_table_flush
addr_at-flush broadcast t k v = ground (
  arith,
  v.size,
  v.fits,
  v.unused k,
  addr_at-cleared t.count 0 k t.bdp_state,
  addr_at-clear_addrs t.count 0 k t.bdp_state,
)

flush-size : (t : Table) → length (svs_arp_table_flush t).bdp_state ≡ length t.bdp_state
unfolding svs_arp_table_flush
flush-size t = length-clear_addrs t.count 0 t.bdp_state

pub flush-count : (t : Table) → (svs_arp_table_flush t).count ≡ 0
unfolding svs_arp_table_flush
flush-count t = refl

-- A flush keeps a valid table valid.
pub svs_arp_table_flush-IsValid :
    (broadcast : List ℕ) (t : Table)
    → IsValid broadcast t
    → IsValid broadcast (svs_arp_table_flush t)
svs_arp_table_flush-IsValid broadcast t v = record {
  size = flush-size t ∙ v.size;
  fits = omega (arith, flush-count t);
  unused = λ i h. addr_at-flush broadcast t i v;
  used = λ i h. absurd (omega (arith, flush-count t));
  distinct = λ i j hi hj e. absurd (omega (arith, flush-count t));
}
