-- ===== src/Cache/Refines.antt =====
-- The operations of the cache do to the records what the specification says, over any list library.
use emulation_lib.Prelude.{
  ℕ, ◌*◌, ◌%◌, ◌^◌, Bool, ◌&&◌, some, List, ◌≡◌, refl, ap, inl, inr, if◌then◌else◌, ◌==◌,
  Bool-cases,
}
use mathlib.Core.Option.{map as map_option}
use emulation_lib.Prelude.Integers.{ℤ, pos, leqℤ}
use emulation_lib.Cache.{
  UserStatus, fin_status, failed, new_status, key_msne_equals, bike_msne_equals,
}
use emulation_lib.Cache.ListLib.{ListLib}
use emulation_lib.Cache.Store.{
  Calls, Cache, user_key, bike_key, expired_time_ok, hash_add_user_status, hash_remove_user_status,
  hash_remove_bike_status, hash_check_and_add_user_stauts, hash_update_user_status,
  hash_update_process_stauts, hash_force_update_user_stauts, hash_remove_expired_status,
  hash_setup_expired_time, hash_has_element, remove_node, check_found, check_status, update_found,
  process_found, force_found, under_lock, push, find_user,
}
use emulation_lib.Cache.Found.{find-cases}
use emulation_lib.Cache.Expired.{expire_loop-survivors, hash_cal_tvdiff-age}
use emulation_lib.Cache.Spec.{
  Op, add, remove_user, remove_bike, check_and_add, update_user, update_process, force_update,
  remove_expired, setup_expired, has_element, period_ok, age, insert, first, Users, of_user,
  check_spec, change_spec, finished_spec, remove_spec, setup_spec, locked_spec, spec, perform,
  users, users_of, renew,
}

module _ (lib : ListLib UserStatus) where
  push-refines :
      (calls : Calls) (c : Cache lib.ListT) (u : UserStatus)
      → users lib (push lib calls c u) ≡ insert calls u (users lib c)
  push-refines calls c u = elim (Bool-cases calls.has_node) [
    | inl some_node ↦ rw (some_node, lib.vals-rpush) refl
    | inr no_node ↦ rw no_node refl
  ]

  has-refines :
      (calls : Calls) (user_id : List ℕ) (c : Cache lib.ListT)
      → some (users_of lib (hash_has_element lib calls user_id c, c))
        ≡ some (spec calls (has_element user_id) (users lib c))
  unfolding hash_has_element spec locked_spec
  has-refines calls user_id c = elim (Bool-cases calls.locks) [
    | inl locked ↦ elim (find-cases lib key_msne_equals (user_key user_id) c.cache_list) [
      | inl (e, e') ↦ rw (locked, e, e') refl
      | inr (n, e, f) ↦ rw (locked, e, f.here) refl
    ]
    | inr stuck ↦ rw stuck refl
  ]

  remove-refines :
      (match : UserStatus → UserStatus → Bool) (key : UserStatus) (c : Cache lib.ListT)
      → users_of lib (remove_node lib c (lib.list_find match c.cache_list key))
        ≡ remove_spec (match key) (users lib c) (first (match key) (lib.vals c.cache_list))
  unfolding remove_node remove_spec
  remove-refines match key c = elim (find-cases lib match key c.cache_list) [
    | inl (e, e') ↦ rw (e, e') refl
    | inr (n, e, f) ↦ rw (e, f.here, remove_node, remove_spec, f.removed) refl
  ]

  update-refines :
      (calls : Calls) (user_id : List ℕ) (status : ℕ) (c : Cache lib.ListT)
      → users_of lib (update_found lib calls status c (find_user lib c user_id))
        ≡ change_spec user_id
            (λ u. record u { status = status; timestamp = calls.clock 0 })
            (users lib c)
            (first (of_user user_id) (lib.vals c.cache_list))
  unfolding update_found change_spec
  update-refines calls user_id status c =
      elim (find-cases lib key_msne_equals (user_key user_id) c.cache_list) [
        | inl (e, e') ↦ rw (e, e') refl
        | inr (n, e, f) ↦
            rw
              (
                e,
                f.here,
                update_found,
                change_spec,
                f.changed (λ u. record u { status = status; timestamp = calls.clock 0 }),
              )
              refl
      ]

  process-refines :
      (user_id : List ℕ) (status : ℕ) (c : Cache lib.ListT)
      → users_of lib (process_found lib status c (find_user lib c user_id))
        ≡ finished_spec user_id
            (λ u. record u { update_status = status })
            (users lib c)
            (first (of_user user_id) (lib.vals c.cache_list))
  unfolding process_found finished_spec
  process-refines user_id status c =
      elim (find-cases lib key_msne_equals (user_key user_id) c.cache_list) [
        | inl (e, e') ↦ rw (e, e') refl
        | inr (n, e, f) ↦
            rw (e, f.here, process_found, finished_spec)
              (elim (Bool-cases ((lib.val c.cache_list n).status == fin_status)) [
                | inl fin ↦ rw (fin, f.changed (λ u. record u { update_status = status })) refl
                | inr not_fin ↦ rw not_fin refl
              ])
      ]

  force-refines :
      (user_id bike_id : List ℕ) (status : ℕ) (c : Cache lib.ListT)
      → users_of lib (force_found lib user_id bike_id status c (find_user lib c user_id))
        ≡ finished_spec user_id
            (λ u. record (renew user_id bike_id status u) { update_status = 0 })
            (users lib c)
            (first (of_user user_id) (lib.vals c.cache_list))
  unfolding force_found finished_spec
  force-refines user_id bike_id status c =
      elim (find-cases lib key_msne_equals (user_key user_id) c.cache_list) [
        | inl (e, e') ↦ rw (e, e') refl
        | inr (n, e, f) ↦
            rw (e, f.here, force_found, finished_spec)
              (elim (Bool-cases ((lib.val c.cache_list n).status == fin_status)) [
                | inl fin ↦
                    rw
                      (
                        fin,
                        f.changed
                            (λ u. record (renew user_id bike_id status u) { update_status = 0 }),
                      )
                      refl
                | inr not_fin ↦ rw not_fin refl
              ])
      ]

  check-refines :
      (calls : Calls) (user_id bike_id : List ℕ) (status update_status : ℕ) (c : Cache lib.ListT)
      → users_of lib
          (check_found lib calls user_id bike_id status update_status c (find_user lib c user_id))
        ≡ check_spec calls user_id bike_id status update_status
            (users lib c)
            (first (of_user user_id) (lib.vals c.cache_list))
  unfolding check_found check_status check_spec new_status
  check-refines calls user_id bike_id status update_status c =
      elim (find-cases lib key_msne_equals (user_key user_id) c.cache_list) [
        | inl (e, e') ↦
            rw (e, e', check_found, check_spec)
              (elim (Bool-cases calls.allocates) [
                | inl room ↦ rw room (ap (λ d. (pos 0, d)) (push-refines calls c _))
                | inr full ↦ rw full refl
              ])
        | inr (n, e, f) ↦
            let u = lib.val c.cache_list n in
            rw (e, f.here, check_found, check_spec, check_status)
              (elim (Bool-cases ((u.status == fin_status) && (u.update_status == 0))) [
                | inl fin ↦
                    rw fin
                      (elim (Bool-cases
                        (leqℤ (age (calls.clock 0) u.timestamp) (pos c.expired_count))) [
                          | inl kept ↦
                              rw
                                (
                                  hash_cal_tvdiff-age,
                                  kept,
                                  f.changed (λ v. record v { update_status = update_status }),
                                )
                                refl
                          | inr old ↦
                              rw
                                (hash_cal_tvdiff-age, old, f.changed (renew user_id bike_id status))
                                refl
                        ])
                | inr busy ↦ rw busy refl
              ])
      ]

  expired-refines :
      (calls : Calls) (c : Cache lib.ListT)
      → map_option (users_of lib) (hash_remove_expired_status lib calls c)
        ≡ some (spec calls remove_expired (users lib c))
  unfolding hash_remove_expired_status spec locked_spec
  expired-refines calls c = elim (Bool-cases calls.locks) [
    | inl locked ↦
        let (l, e, k) = expire_loop-survivors lib c.expired_count calls.clock c.cache_list in
        rw (locked, e, k) refl
    | inr stuck ↦ rw stuck refl
  ]

  under_lock-refines :
      (calls : Calls) (c : Cache lib.ListT) (body : ℤ × Cache lib.ListT) (r : ℤ × Users)
      → users_of lib body ≡ r
      → some (users_of lib (under_lock calls c body))
        ≡ some (if calls.locks then r else (failed, users lib c))
  under_lock-refines calls c body r e = elim (Bool-cases calls.locks) [
    | inl locked ↦ rw locked (ap some e)
    | inr stuck ↦ rw stuck refl
  ]

  add-refines :
      (calls : Calls) (user_id bike_id : List ℕ) (status : ℕ) (c : Cache lib.ListT)
      → some (users_of lib (hash_add_user_status lib calls user_id bike_id status c))
        ≡ some (spec calls (add user_id bike_id status) (users lib c))
  unfolding hash_add_user_status spec locked_spec new_status
  add-refines calls user_id bike_id status c = elim (Bool-cases calls.allocates) [
    | inl room ↦ rw room (
        under_lock-refines calls c (pos 0, push lib calls c (new_status user_id bike_id status)) _
          (ap (λ d. (pos 0, d)) (push-refines calls c _)))
    | inr full ↦
        rw full (elim (Bool-cases calls.locks) [
          | inl locked ↦ rw locked refl
          | inr stuck ↦ rw stuck refl
        ])
  ]

  expired_time_ok-period_ok : (product : ℕ) → expired_time_ok product ≡ period_ok product
  unfolding expired_time_ok
  expired_time_ok-period_ok product = refl

  setup-refines :
      (calls : Calls) (product : ℕ) (c : Cache lib.ListT)
      → users_of lib (
          let c' = if expired_time_ok product then record c { expired_count = product } else c in
          if calls.unlocks then (pos 0, c') else (failed, c'))
        ≡ setup_spec calls product (users lib c)
  unfolding setup_spec
  setup-refines calls product c = elim (Bool-cases (period_ok product)) [
    | inl fine ↦
        rw (expired_time_ok-period_ok product, fine)
          (unlocked (record c { expired_count = product }))
    | inr short ↦ rw (expired_time_ok-period_ok product, short) (unlocked c)
  ]
    where
      unlocked :
          (d : Cache lib.ListT)
          → users_of lib (if calls.unlocks then (pos 0, d) else (failed, d))
            ≡ (if calls.unlocks then (pos 0, users lib d) else (failed, users lib d))
      unlocked d = elim (Bool-cases calls.unlocks) [
        | inl opened ↦ rw opened refl
        | inr shut ↦ rw shut refl
      ]

  -- Over any list library that keeps its laws, each of the ten operations on the list and the time to expiry (all
  -- but hash_init and hash_close) ends, with the result code, the records and the time to expiry that the
  -- specification gives, whether or not the mutex can be locked or unlocked, calloc gives memory for a record and
  -- list_node_new a node; without a node nothing is added and the result is that of success.
  pub perform-spec :
      (calls : Calls) (op : Op) (c : Cache lib.ListT)
      → map_option (users_of lib) (perform lib calls op c) ≡ some (spec calls op (users lib c))
  unfolding perform spec locked_spec hash_remove_user_status hash_remove_bike_status
      hash_check_and_add_user_stauts hash_update_user_status hash_update_process_stauts
      hash_force_update_user_stauts hash_setup_expired_time
  perform-spec calls (add user_id bike_id status) c = add-refines calls user_id bike_id status c
  perform-spec calls (remove_user user_id) c =
      under_lock-refines calls c _ _ (remove-refines key_msne_equals (user_key user_id) c)
  perform-spec calls (remove_bike bike_id) c =
      under_lock-refines calls c _ _ (remove-refines bike_msne_equals (bike_key bike_id) c)
  perform-spec calls (check_and_add user_id bike_id status update_status) c =
      under_lock-refines calls c _ _ (check-refines calls user_id bike_id status update_status c)
  perform-spec calls (update_user user_id status) c =
      under_lock-refines calls c _ _ (update-refines calls user_id status c)
  perform-spec calls (update_process user_id status) c =
      under_lock-refines calls c _ _ (process-refines user_id status c)
  perform-spec calls (force_update user_id bike_id status) c =
      under_lock-refines calls c _ _ (force-refines user_id bike_id status c)
  perform-spec calls remove_expired c = expired-refines calls c
  perform-spec calls (has_element user_id) c = has-refines calls user_id c
  perform-spec calls (setup_expired seconds) c =
      under_lock-refines calls c _ _ (setup-refines calls (seconds * 1000 % 2 ^ 32) c)
