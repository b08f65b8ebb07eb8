-- ===== src/Examples/Users.antt =====
-- A cache with two users, one of whom has brought the bike back.
use emulation_lib.Prelude.{ℕ, true, some, List, [], ◌∷◌, ◌≡◌, ◌≢◌, refl, arith, take, not}
use mathlib.Core.Option.{map as map_option}
use emulation_lib.Prelude.Integers.{pos}
use emulation_lib.Cache.{
  UserStatus, Timeval, max_id_len, failed, key_msne_equals, strncmp_eq, new_status, hash_cal_tvdiff,
}
use emulation_lib.Cache.Store.{
  Calls, Cache, hash_check_and_add_user_stauts, hash_update_user_status, check_found, check_status,
  update_found, is_expired, hash_remove_expired_status, expire_loop, hash_setup_expired_time,
  expired_time_ok,
}
use emulation_lib.Cache.Spec.{
  gone, check_and_add, update_user, remove_expired, setup_expired, perform, spec, users, users_of,
}
use emulation_lib.Cache.Refines.{perform-spec}
use emulation_lib.Cache.Reach.{Reach, start, next}
use emulation_lib.Cache.Unique.{NotAdd, IsUnique, Reach-IsUnique}
use emulation_lib.Cache.Period.{AnyOp, IsPeriod, Reach-IsPeriod}
use emulation_lib.Cache.Rental.{check_and_add-twice}
use emulation_lib.Cache.Others.{perform-others, record_of}
use emulation_lib.Cache.Removal.{remove_expired-keep, keep}
use emulation_lib.Examples.Plain.{plain}

abbrev at : ℕ → Timeval
at seconds = record { tv_sec = seconds; tv_usec = 0 }

abbrev calls_at : ℕ → Calls
calls_at seconds = record {
  locks = true;
  unlocks = true;
  allocates = true;
  has_node = true;
  clock = λ i. at seconds;
}

abbrev ann : List ℕ
ann = 97 ∷ []

abbrev bob : List ℕ
bob = 98 ∷ []

abbrev bike : List ℕ
bike = 7 ∷ []

abbrev rental : List ℕ → UserStatus
rental user = record {
  user_id = user;
  bike_id = bike;
  timestamp = at 0;
  status = 1;
  update_status = 0;
}

abbrev CacheT : Type 0
CacheT = Cache (List UserStatus)

abbrev empty : CacheT
empty = record { cache_list = []; expired_count = 120000 }

abbrev with_ann : CacheT
with_ann = record { cache_list = rental ann ∷ []; expired_count = 120000 }

abbrev with_both : CacheT
with_both = record { cache_list = rental ann ∷ rental bob ∷ []; expired_count = 120000 }

abbrev ann_back : CacheT
ann_back = record {
  cache_list = record (rental ann) { status = 2; timestamp = at 10 } ∷ rental bob ∷ [];
  expired_count = 120000;
}

rent_ann : perform plain (calls_at 0) (check_and_add ann bike 1 0) empty ≡ some (pos 0, with_ann)
unfolding perform hash_check_and_add_user_stauts check_found check_status key_msne_equals strncmp_eq
    new_status
rent_ann = refl

rent_bob :
    perform plain (calls_at 1) (check_and_add bob bike 1 0) with_ann ≡ some (pos 0, with_both)
unfolding perform hash_check_and_add_user_stauts check_found check_status key_msne_equals strncmp_eq
    new_status
rent_bob = refl

again_ann :
    perform plain (calls_at 2) (check_and_add ann bike 1 0) with_ann ≡ some (failed, with_ann)
unfolding perform hash_check_and_add_user_stauts check_found check_status key_msne_equals strncmp_eq
    new_status
again_ann = refl

return_ann : perform plain (calls_at 10) (update_user ann 2) with_both ≡ some (pos 0, ann_back)
unfolding perform hash_update_user_status update_found key_msne_equals strncmp_eq
return_ann = refl

perform-spec_example :
    map_option (users_of plain) (perform plain (calls_at 130) remove_expired ann_back)
    ≡ some (spec (calls_at 130) remove_expired (users plain ann_back))
perform-spec_example = perform-spec plain (calls_at 130) remove_expired ann_back

-- After just two minutes the record goes.
expire_ann :
    perform plain (calls_at 130) remove_expired ann_back
    ≡ some (pos 0, record { cache_list = rental bob ∷ []; expired_count = 120000 })
unfolding perform hash_remove_expired_status expire_loop is_expired hash_cal_tvdiff
expire_ann = refl

reached : Reach plain NotAdd with_both
reached = next (calls_at 1) _ _ _ (next (calls_at 0) _ _ _ start refl rent_ann) refl rent_bob

Reach-IsUnique_example : IsUnique (users plain with_both)
Reach-IsUnique_example = Reach-IsUnique plain with_both reached

longer :
    perform plain (calls_at 0) (setup_expired 121) empty
    ≡ some (pos 0, record { cache_list = []; expired_count = 121000 })
unfolding perform hash_setup_expired_time expired_time_ok
longer = refl

reached_longer : Reach plain AnyOp (record { cache_list = []; expired_count = 121000 })
reached_longer = next (calls_at 0) _ _ _ start tt longer

Reach-IsPeriod_example : IsPeriod (users plain (record { cache_list = []; expired_count = 121000 }))
Reach-IsPeriod_example = Reach-IsPeriod plain _ reached_longer

check_and_add-twice_example : (failed ≡ failed) × (users plain with_ann ≡ users plain with_ann)
check_and_add-twice_example =
    check_and_add-twice plain (calls_at 0) (calls_at 2) ann bike bike 0 1 0 empty with_ann with_ann
      failed refl rent_ann again_ann

differ : take max_id_len ann ≢ take max_id_len bob
differ e = ground arith

perform-others_example :
    record_of bob (users plain ann_back) ≡ record_of bob (users plain with_both)
perform-others_example =
    perform-others plain (calls_at 10) (update_user ann 2) ann bob with_both ann_back (pos 0) refl
      differ return_ann

remove_expired-keep_example :
    map_option (users_of plain) (perform plain (calls_at 130) remove_expired ann_back)
    ≡ some (
      pos 0,
      record (users plain ann_back) {
        cache_list = keep (λ u. not (gone 120000 (at 130) u)) ann_back.cache_list;
      },
    )
remove_expired-keep_example = remove_expired-keep plain true true true (at 130) ann_back
