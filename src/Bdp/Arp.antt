-- ===== src/Bdp/Arp.antt =====
-- The table of dock points in src/svsBdp.c: svsBdpAddrMatch, svsBdpVirtualToPhysical,
-- svsBdpPhysicalToVirtual, svsBdpArpTableUpdate, svsArpTableFlush and svsBdpMaxGet.
-- A pointer argument is an option, `none` for a null pointer; a result through a pointer is returned.
pub mod Find
pub mod Valid
pub mod Lookup
pub mod Outcome
pub mod Update
pub mod Flush
use emulation_lib.Prelude.{
  ℕ, zero, suc, ◌+◌, ◌%◌, ◌^◌, Bool, true, false, ◌&&◌, not, Option, none, some, List, [], ◌∷◌,
  get_or, set, if◌then◌else◌, ◌==◌, leb, replicate,
}
use emulation_lib.Err.{Err, pass, fail, passed}
use emulation_lib.Bdp.Types.{bdp_msg_addr_length, bdp_num_all, bdp_max}

-- id_data_addr_t: the buffers of one message, `none` for a null pointer.
pub record IdDataAddr : Type 0 where
  pub req : Option (List ℕ)
  pub rsp : Option (List ℕ)
  pub req_len : ℕ
  pub rsp_len : ℕ

-- bdp_state_t. The message structures at its end are what the buffers of `id_data_addr` point to.
pub record BdpState : Type 0 where
  pub bdp_addr : List ℕ
  pub bdp_bus : ℕ
  pub tx_cnt : ℕ
  pub rx_cnt : ℕ
  pub id_data_addr : ℕ → IdDataAddr

abbrev pub zero_addr : List ℕ
zero_addr = replicate bdp_msg_addr_length 0

abbrev pub no_data : IdDataAddr
no_data = record { req = none; rsp = none; req_len = 0; rsp_len = 0 }

-- What `memset(bdp_state, 0, …)` leaves.
abbrev pub blank : BdpState
blank = record {
  bdp_addr = zero_addr;
  bdp_bus = 0;
  tx_cnt = 0;
  rx_cnt = 0;
  id_data_addr = λ id. no_data;
}

-- The table and its counters: `bdp_state`, `bdp_dev_info.bdp_max`, and each bus's own `bdp_max`.
pub record Table : Type 0 where
  pub bdp_state : List BdpState
  pub count : ℕ
  pub bus_count : ℕ → ℕ

abbrev pub addr_at : List BdpState → ℕ → List ℕ
addr_at state i = (get_or state i blank).bdp_addr

-- `memcmp(…) == 0`
unfoldable pub memcmp_eq : List ℕ → List ℕ → Bool
memcmp_eq [] [] = true
memcmp_eq [] (b ∷ bs) = false
memcmp_eq (a ∷ as_) [] = false
memcmp_eq (a ∷ as_) (b ∷ bs) = a == b && memcmp_eq as_ bs

unfoldable pub svs_bdp_addr_match : List ℕ → List ℕ → Err
svs_bdp_addr_match addr1 addr2 = if memcmp_eq addr1 addr2 then pass else fail

unfoldable pub svs_bdp_max_get : Table → ℕ
svs_bdp_max_get t = t.count

unfoldable pub svs_bdp_virtual_to_physical : List ℕ → Table → ℕ → Err × Option (List ℕ)
unfolding svs_bdp_max_get
svs_bdp_virtual_to_physical broadcast t index =
    if leb (svs_bdp_max_get t) index && not (index == bdp_num_all)
    then (fail, none)
    else if index == bdp_num_all
    then (pass, some broadcast)
    else (pass, some (addr_at t.bdp_state index))

-- The loop over the table from `i`, with that many rounds left: the first entry that holds the address.
unfoldable pub find_addr : ℕ → ℕ → List BdpState → List ℕ → Option ℕ
find_addr zero i state addr = none
find_addr (suc n) i state addr =
    let rest = find_addr n (i + 1) state addr in
    if memcmp_eq (addr_at state i) addr then some i else rest

-- The two tests that refuse an address.
unfoldable pub invalid_addr : List ℕ → List ℕ → Bool
unfolding svs_bdp_addr_match
invalid_addr broadcast addr =
    if passed (svs_bdp_addr_match addr zero_addr)
    then true
    else passed (svs_bdp_addr_match addr broadcast)

or_fail : Option ℕ → Err × Option ℕ
or_fail none = (fail, none)
or_fail (some i) = (pass, some i)

physical_to_virtual : List ℕ → Table → List ℕ → Err × Option ℕ
unfolding or_fail
physical_to_virtual broadcast t addr =
    if invalid_addr broadcast addr
    then (fail, none)
    else or_fail (find_addr bdp_max 0 t.bdp_state addr)

unfoldable pub svs_bdp_physical_to_virtual : List ℕ → Table → Option (List ℕ) → Err × Option ℕ
unfolding physical_to_virtual
svs_bdp_physical_to_virtual broadcast t none = (fail, none)
svs_bdp_physical_to_virtual broadcast t (some addr) = physical_to_virtual broadcast t addr

-- The new entry goes behind the last one, where the loop has stopped.
unfoldable pub with_entry : Table → ℕ → List ℕ → Table
with_entry t bus addr = record t {
  bdp_state =
      set t.bdp_state t.count
        (record (get_or t.bdp_state t.count blank) { bdp_addr = addr; bdp_bus = bus });
  count = (t.count + 1) % 2 ^ 16;
  bus_count = λ b. if b == bus then (t.bus_count bus + 1) % 2 ^ 16 else t.bus_count b;
}

unfoldable pub add_entry : Table → ℕ → List ℕ → Err × Table
add_entry t bus addr = if leb bdp_max t.count then (fail, t) else (pass, with_entry t bus addr)

found_or_add : Option ℕ → Table → ℕ → List ℕ → Err × Table
found_or_add (some i) t bus addr = (pass, t)
found_or_add none t bus addr = add_entry t bus addr

arp_table_update : List ℕ → Table → ℕ → List ℕ → Err × Table
unfolding found_or_add add_entry
arp_table_update broadcast t bus addr =
    if invalid_addr broadcast addr
    then (fail, t)
    else found_or_add (find_addr t.count 0 t.bdp_state addr) t bus addr

unfoldable pub svs_bdp_arp_table_update : List ℕ → Table → ℕ → Option (List ℕ) → Err × Table
unfolding arp_table_update
svs_bdp_arp_table_update broadcast t bus none = (fail, t)
svs_bdp_arp_table_update broadcast t bus (some addr) = arp_table_update broadcast t bus addr

-- The body of the flush's loop.
unfoldable pub clear_entry : List BdpState → ℕ → List BdpState
clear_entry state i = set state i (record (get_or state i blank) { bdp_addr = zero_addr })

-- The loop of the flush from `i`, with that many rounds left.
unfoldable pub clear_addrs : ℕ → ℕ → List BdpState → List BdpState
clear_addrs zero i state = state
clear_addrs (suc n) i state = clear_addrs n (i + 1) (clear_entry state i)

unfoldable pub svs_arp_table_flush : Table → Table
unfolding clear_addrs clear_entry
svs_arp_table_flush t = record t { bdp_state = clear_addrs t.count 0 t.bdp_state; count = 0 }
