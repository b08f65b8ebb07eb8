-- ===== src/Cache/Expired.antt =====
-- The loop of hash_remove_expired_status ends, and leaves the records that are not expired.
use emulation_lib.Prelude.{
  ℕ, zero, suc, ◌+◌, ◌<◌, some, List, [], ◌∷◌, ◌++◌, ◌≡◌, refl, ◌∙◌, inl, inr, arith, length,
  Bool-cases,
}
use emulation_lib.Cache.{UserStatus, Timeval, hash_cal_tvdiff}
use emulation_lib.Cache.ListLib.{ListLib}
use emulation_lib.Cache.Store.{is_expired, readings, expire_loop}
use emulation_lib.Cache.Spec.{age, gone, survivors}
use mathlib.Core.List.{append_assoc}

pub hash_cal_tvdiff-age : (now since : Timeval) → hash_cal_tvdiff now since ≡ age now since
unfolding hash_cal_tvdiff
hash_cal_tvdiff-age now since = refl

is_expired-gone :
    (expired_count : ℕ) (now : Timeval) (u : UserStatus)
    → is_expired expired_count now u ≡ gone expired_count now u
unfolding is_expired hash_cal_tvdiff
is_expired-gone expired_count now u = refl

module _ (lib : ListLib UserStatus) (expired_count : ℕ) (clock : ℕ → Timeval) where
  -- From an iterator, with fuel for every record that is left and one more.
  expire_loop-rest :
      (fuel k : ℕ) (l : lib.ListT) (it : lib.Iterator) (before behind : List UserStatus)
      → lib.Between l it before behind
      → length behind < fuel
      → (l' : lib.ListT) × (expire_loop lib fuel expired_count clock k l it ≡ some l')
        × (lib.vals l' ≡ before ++ survivors expired_count clock k behind)
  unfolding expire_loop survivors
  expire_loop-rest zero k l it before behind b h = absurd (omega arith)
  expire_loop-rest (suc fuel) k l it before [] b h =
      (l, rw (expire_loop, lib.next_end l it before b) refl, lib.vals-between l it before [] b)
  expire_loop-rest (suc fuel) k l it before (u ∷ behind) b h =
      let (n, e, at, on, off) = lib.next_node l it before u behind b in
      let value = lib.val-at l n before u behind at in
      let same = is_expired-gone expired_count (clock k) u in
      elim (Bool-cases (gone expired_count (clock k) u)) [
        | inl old ↦
            let (l', r, v) =
              expire_loop-rest fuel (readings k u) (lib.list_remove l n) (lib.iterator_after l it)
                before behind off (omega arith) in
            (l', rw (expire_loop, e, value, same ∙ old) r, rw old v)
        | inr young ↦
            let (l', r, v) =
              expire_loop-rest fuel (readings k u) l (lib.iterator_after l it) (before ++ (u ∷ []))
                behind on (omega arith) in
            (
              l',
              rw (expire_loop, e, value, same ∙ young) r,
              rw young (
                  v
                  ∙ append_assoc before (u ∷ [])
                      (survivors expired_count clock (readings k u) behind)),
            )
      ]

  pub expire_loop-survivors :
      (l : lib.ListT)
      → (l' : lib.ListT) × (expire_loop lib
            (lib.len l + 1)
            expired_count
            clock
            0
            l
            (lib.list_iterator_new l)
          ≡ some l')
        × (lib.vals l' ≡ survivors expired_count clock 0 (lib.vals l))
  expire_loop-survivors l =
      expire_loop-rest (lib.len l + 1) 0 l (lib.list_iterator_new l) [] (lib.vals l)
        (lib.iterator_start l) (omega (arith, lib.len-vals l))
