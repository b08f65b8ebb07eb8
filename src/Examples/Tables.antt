-- ===== src/Examples/Tables.antt =====
-- Registering, looking up and forgetting dock points.
use emulation_lib.Prelude.{ℕ, some, ◌≡◌, ◌↔◌, refl, arith, sym, ap, ◌∙◌}
use emulation_lib.Err.{pass, fail}
use emulation_lib.Bdp.Types.{bdp_num_all}
use emulation_lib.Bdp.Arp.{
  with_entry, find_addr, invalid_addr, memcmp_eq, svs_bdp_arp_table_update,
  svs_bdp_physical_to_virtual, svs_bdp_virtual_to_physical,
}
use emulation_lib.Bdp.Arp.Valid.{IsValid, svs_bdp_arp_table_update-IsValid}
use emulation_lib.Bdp.Arp.Lookup.{lookup_used, virtual_to_physical-physical_to_virtual}
use emulation_lib.Bdp.Arp.Update.{
  Refusal, update_then_lookup, update_keeps_lookup, update_fails_iff,
}
use emulation_lib.Examples.Data.{
  all, dock, other_dock, one_dock, one_dock-IsValid, numbered, full_table, addr_at-full_table,
  full_table-IsValid,
}

dock_found : svs_bdp_physical_to_virtual all one_dock (some dock) ≡ (pass, some 0)
dock_found = lookup_used all one_dock one_dock-IsValid 0 (omega arith)

numbered_255_found :
    svs_bdp_physical_to_virtual all full_table (some (numbered 255)) ≡ (pass, some bdp_num_all)
numbered_255_found =
    ap (λ a. svs_bdp_physical_to_virtual all full_table (some a))
      (sym (addr_at-full_table bdp_num_all (omega arith)))
    ∙ lookup_used all full_table full_table-IsValid bdp_num_all (omega arith)

other_dock_accepted : (svs_bdp_arp_table_update all one_dock 0 (some other_dock)).0 ≡ pass
unfolding svs_bdp_arp_table_update invalid_addr memcmp_eq with_entry find_addr
other_dock_accepted = refl

update-IsValid_example : IsValid all (svs_bdp_arp_table_update all one_dock 0 (some other_dock)).1
update-IsValid_example =
    svs_bdp_arp_table_update-IsValid all one_dock 0 (some other_dock) one_dock-IsValid

update_then_lookup_example :
    (i : ℕ) × (svs_bdp_physical_to_virtual all
        (svs_bdp_arp_table_update all one_dock 0 (some other_dock)).1
        (some other_dock)
      ≡ (pass, some i))
update_then_lookup_example =
    update_then_lookup all one_dock 0 other_dock one_dock-IsValid other_dock_accepted

update_keeps_lookup_example :
    svs_bdp_physical_to_virtual all
      (svs_bdp_arp_table_update all one_dock 0 (some other_dock)).1
      (some dock)
    ≡ (pass, some 0)
update_keeps_lookup_example =
    update_keeps_lookup all one_dock 0 other_dock dock 0 one_dock-IsValid dock_found

update_fails_iff_example :
    ((svs_bdp_arp_table_update all full_table 0 (some dock)).0 ≡ fail) ↔ Refusal all full_table dock
update_fails_iff_example = update_fails_iff all full_table 0 dock

round_trip_example : svs_bdp_virtual_to_physical all one_dock 0 ≡ (pass, some dock)
round_trip_example =
    virtual_to_physical-physical_to_virtual all one_dock one_dock-IsValid dock 0 dock_found
      (λ e. absurd (omega (arith, e)))
