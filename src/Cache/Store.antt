-- ===== src/Cache/Store.antt =====
-- The operations of cache/hashmap.c over the list library.
use emulation_lib.Prelude.{
  ℕ, zero, suc, ◌+◌, ◌*◌, ◌%◌, ◌^◌, Bool, true, false, ◌&&◌, Option, none, some, List, take,
  if◌then◌else◌, ◌==◌, ltb,
}
use emulation_lib.Prelude.Integers.{ℤ, pos, leqℤ}
use emulation_lib.Cache.{
  UserStatus, Timeval, max_id_len, fin_status, failed, zeroed, new_status, key_msne_equals,
  bike_msne_equals, hash_cal_tvdiff,
}
use emulation_lib.Cache.ListLib.{ListLib}

-- What the calls of the system give to an operation: whether the mutex is locked and unlocked without an
-- error, whether calloc gives memory, whether list_node_new gives a node, and the clock at each reading.
pub record Calls : Type 0 where
  pub locks : Bool
  pub unlocks : Bool
  pub allocates : Bool
  pub has_node : Bool
  pub clock : ℕ → Timeval

-- The global variables: the list (after hash_init) and the time to expiry in milliseconds.
pub record Cache (L : Type 0) : Type 0 where
  pub cache_list : L
  pub expired_count : ℕ

-- The variable `cache_list` before, between and after hash_init and hash_close.
pub data ListPointer (L : Type 0) : Type 0 where
  null : ListPointer L
  live : L → ListPointer L
  freed : ListPointer L

-- The key that list_find is given: only the identifier that is compared is set.
abbrev pub user_key : List ℕ → UserStatus
user_key user_id = record zeroed { user_id = take max_id_len user_id }

abbrev pub bike_key : List ℕ → UserStatus
bike_key bike_id = record zeroed { bike_id = take max_id_len bike_id }

-- A failed lock ends an operation at once.
abbrev pub under_lock : {A : Type 0} → Calls → A → ℤ × A → ℤ × A
under_lock calls c body = if calls.locks then body else (failed, c)

-- The test of the loop, with the clock read the given time.
unfoldable pub is_expired : ℕ → Timeval → UserStatus → Bool
is_expired expired_count now u =
    (u.status == fin_status) && leqℤ (pos expired_count) (hash_cal_tvdiff now u.timestamp)

-- The clock is only read for a finished rental: how often after this element.
abbrev pub readings : ℕ → UserStatus → ℕ
readings k u = if u.status == fin_status then suc k else k

-- The seconds are a non-negative int, and the product is one of 32 bits with a sign.
unfoldable pub expired_time_ok : ℕ → Bool
expired_time_ok product = ltb 120000 product && ltb product (2 ^ 31)

module _ (lib : ListLib UserStatus) where
  abbrev pub CacheT : Type 0
  CacheT = Cache lib.ListT

  unfoldable pub hash_init_routine : ListPointer lib.ListT → ListPointer lib.ListT
  hash_init_routine null = live lib.list_new
  hash_init_routine (live l) = live l
  hash_init_routine freed = freed

  -- The routine runs once: the first argument says whether it has run.
  unfoldable pub hash_init : Bool → ListPointer lib.ListT → Bool × ListPointer lib.ListT
  hash_init true p = (true, p)
  hash_init false p = (true, hash_init_routine p)

  -- The pointer keeps the address of the list that is destroyed.
  unfoldable pub hash_close : ListPointer lib.ListT → ListPointer lib.ListT
  hash_close null = null
  hash_close (live l) = freed
  hash_close freed = freed

  -- list_node_new and list_rpush; without a node list_rpush changes nothing.
  abbrev pub push : Calls → CacheT → UserStatus → CacheT
  push calls c s =
      if calls.has_node then record c { cache_list = lib.list_rpush c.cache_list s } else c

  abbrev pub write : CacheT → lib.Node → UserStatus → CacheT
  write c n s = record c { cache_list = lib.set_val c.cache_list n s }

  abbrev pub remove : CacheT → lib.Node → CacheT
  remove c n = record c { cache_list = lib.list_remove c.cache_list n }

  abbrev pub find_user : CacheT → List ℕ → Option lib.Node
  find_user c user_id = lib.list_find key_msne_equals c.cache_list (user_key user_id)

  unfoldable pub hash_add_user_status : Calls → List ℕ → List ℕ → ℕ → CacheT → ℤ × CacheT
  hash_add_user_status calls user_id bike_id status c =
      if calls.allocates
      then under_lock calls c (pos 0, push calls c (new_status user_id bike_id status))
      else (failed, c)

  abbrev pub found_result : Option lib.Node → ℤ
  found_result none = failed
  found_result (some n) = pos 0

  unfoldable pub hash_has_element : Calls → List ℕ → CacheT → ℤ
  hash_has_element calls user_id c =
      if calls.locks then found_result (find_user c user_id) else failed

  unfoldable pub remove_node : CacheT → Option lib.Node → ℤ × CacheT
  remove_node c none = (failed, c)
  remove_node c (some n) = (pos 0, remove c n)

  unfoldable pub hash_remove_user_status : Calls → List ℕ → CacheT → ℤ × CacheT
  hash_remove_user_status calls user_id c = under_lock calls c (remove_node c (find_user c user_id))

  unfoldable pub hash_remove_bike_status : Calls → List ℕ → CacheT → ℤ × CacheT
  hash_remove_bike_status calls bike_id c =
      under_lock calls c
        (remove_node c (lib.list_find bike_msne_equals c.cache_list (bike_key bike_id)))

  -- The user is in the list: a finished rental is kept for a while, and only then replaced.
  unfoldable pub check_status :
      Calls → List ℕ → List ℕ → ℕ → ℕ → CacheT → lib.Node → UserStatus → ℤ × CacheT
  check_status calls user_id bike_id status update_status c n u =
      if (u.status == fin_status) && (u.update_status == 0)
      then (if leqℤ (hash_cal_tvdiff (calls.clock 0) u.timestamp) (pos c.expired_count)
          then (pos 2, write c n (record u { update_status = update_status }))
          else (
            pos 0,
            write c n (record u {
              user_id = take max_id_len user_id;
              bike_id = take max_id_len bike_id;
              status = status;
            }),
          ))
      else (failed, c)

  unfoldable pub check_found :
      Calls → List ℕ → List ℕ → ℕ → ℕ → CacheT → Option lib.Node → ℤ × CacheT
  check_found calls user_id bike_id status update_status c none =
      if calls.allocates
      then (pos 0, push calls c (new_status user_id bike_id status))
      else (failed, c)
  check_found calls user_id bike_id status update_status c (some n) =
      check_status calls user_id bike_id status update_status c n (lib.val c.cache_list n)

  unfoldable pub hash_check_and_add_user_stauts :
      Calls → List ℕ → List ℕ → ℕ → ℕ → CacheT → ℤ × CacheT
  hash_check_and_add_user_stauts calls user_id bike_id status update_status c =
      under_lock calls c
        (check_found calls user_id bike_id status update_status c (find_user c user_id))

  unfoldable pub update_found : Calls → ℕ → CacheT → Option lib.Node → ℤ × CacheT
  update_found calls status c none = (failed, c)
  update_found calls status c (some n) = (
    pos 0,
    write c n (record (lib.val c.cache_list n) { status = status; timestamp = calls.clock 0 }),
  )

  unfoldable pub hash_update_user_status : Calls → List ℕ → ℕ → CacheT → ℤ × CacheT
  hash_update_user_status calls user_id status c =
      under_lock calls c (update_found calls status c (find_user c user_id))

  unfoldable pub process_found : ℕ → CacheT → Option lib.Node → ℤ × CacheT
  process_found status c none = (failed, c)
  process_found status c (some n) =
      let u = lib.val c.cache_list n in
      if u.status == fin_status
      then (pos 0, write c n (record u { update_status = status }))
      else (failed, c)

  unfoldable pub hash_update_process_stauts : Calls → List ℕ → ℕ → CacheT → ℤ × CacheT
  hash_update_process_stauts calls user_id status c =
      under_lock calls c (process_found status c (find_user c user_id))

  unfoldable pub force_found : List ℕ → List ℕ → ℕ → CacheT → Option lib.Node → ℤ × CacheT
  force_found user_id bike_id status c none = (failed, c)
  force_found user_id bike_id status c (some n) =
      let u = lib.val c.cache_list n in
      if u.status == fin_status
      then (
        pos 0,
        write c n (record u {
          user_id = take max_id_len user_id;
          bike_id = take max_id_len bike_id;
          status = status;
          update_status = 0;
        }),
      )
      else (failed, c)

  unfoldable pub hash_force_update_user_stauts : Calls → List ℕ → List ℕ → ℕ → CacheT → ℤ × CacheT
  hash_force_update_user_stauts calls user_id bike_id status c =
      under_lock calls c (force_found user_id bike_id status c (find_user c user_id))

  -- The loop, from an iterator and with so many readings of the clock behind it; none when the fuel is used up.
  unfoldable pub expire_loop :
      ℕ → ℕ → (ℕ → Timeval) → ℕ → lib.ListT → lib.Iterator → Option lib.ListT
  expire_loop zero expired_count clock k l it = none
  expire_loop (suc fuel) expired_count clock k l it = elim (lib.list_iterator_next l it) [
    | none ↦ some l
    | some n ↦
        let u = lib.val l n in
        let it' = lib.iterator_after l it in
        expire_loop fuel expired_count clock (readings k u)
          (if is_expired expired_count (clock k) u then lib.list_remove l n else l) it'
  ]

  abbrev pub with_list : CacheT → Option lib.ListT → Option (ℤ × CacheT)
  with_list c none = none
  with_list c (some l) = some (pos 0, record c { cache_list = l })

  -- The fuel is one more than the length of the list.
  unfoldable pub hash_remove_expired_status : Calls → CacheT → Option (ℤ × CacheT)
  hash_remove_expired_status calls c =
      if calls.locks
      then with_list c (
          expire_loop (lib.len c.cache_list + 1) c.expired_count calls.clock 0 c.cache_list
            (lib.list_iterator_new c.cache_list))
      else some (failed, c)

  unfoldable pub hash_setup_expired_time : Calls → ℕ → CacheT → ℤ × CacheT
  hash_setup_expired_time calls expired_time c =
      let product = expired_time * 1000 % 2 ^ 32 in
      let c' = if expired_time_ok product then record c { expired_count = product } else c in
      under_lock calls c (if calls.unlocks then (pos 0, c') else (failed, c'))
