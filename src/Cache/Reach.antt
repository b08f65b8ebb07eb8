-- ===== src/Cache/Reach.antt =====
-- What holds of every cache that the operations lead to, from the empty one of hash_init.
use emulation_lib.Prelude.{Bool, true, false, some, [], ◌≡◌, sym, ap, subst, ◌∙◌, if◌then◌else◌}
use mathlib.Core.Option.{map as map_option, some_inj}
use emulation_lib.Prelude.Integers.{ℤ}
use emulation_lib.Cache.{UserStatus, failed}
use emulation_lib.Cache.ListLib.{ListLib}
use emulation_lib.Cache.Store.{Calls, Cache}
use emulation_lib.Cache.Spec.{Op, Users, locked_spec, spec, perform, users, users_of}
use emulation_lib.Cache.Refines.{perform-spec}

-- A predicate that every operation in a class keeps.
abbrev pub IsKept : (Calls → Op → Type 0) → (Users → Type 0) → Type 0
IsKept Allowed P =
    (calls : Calls) (op : Op) (c : Users) → Allowed calls op → P c → P (spec calls op c).1

-- The caches that runs of such operations lead to.
pub data Reach (lib : ListLib UserStatus) (Allowed : Calls → Op → Type 0)
    : Cache lib.ListT → Type 0 where
  start : Reach lib Allowed (record { cache_list = lib.list_new; expired_count = 120000 })
  next :
      {c : Cache lib.ListT}
      → (calls : Calls) (op : Op) (rc : ℤ) (c' : Cache lib.ListT) → Reach lib Allowed c
      → Allowed calls op
      → perform lib calls op c ≡ some (rc, c')
      → Reach lib Allowed c'

-- It is enough to look at operations under the mutex.
pub IsKept-locked :
    (Allowed : Calls → Op → Type 0) (P : Users → Type 0)
    → ((calls : Calls) (op : Op) (c : Users)
        → Allowed calls op
        → P c
        → P (locked_spec calls op c).1)
    → IsKept Allowed P
unfolding spec
IsKept-locked Allowed P h calls op c a d =
    either calls.locks (locked_spec calls op c) (h calls op c a d)
  where
    either : (b : Bool) (r : ℤ × Users) → P r.1 → P (if b then r else (failed, c)).1
    either true r k = k
    either false r k = d

module _ (lib : ListLib UserStatus) (Allowed : Calls → Op → Type 0) (P : Users → Type 0)
    (kept : IsKept Allowed P) where
  -- What holds of the empty cache and is kept holds of every cache that is reached.
  pub Reach-IsKept :
      P (record { cache_list = []; expired_count = 120000 })
      → (c : Cache lib.ListT) → Reach lib Allowed c
      → P (users lib c)
  Reach-IsKept empty c start = rw (lib.vals-new) empty
  Reach-IsKept empty c (next {c = b} calls op rc c' r a e) =
      let same : some (rc, users lib c') ≡ some (spec calls op (users lib b)) =
        sym (ap (map_option (users_of lib)) e) ∙ perform-spec lib calls op b in
      subst P (sym (ap (λ x. x.1) (some_inj.0 same)))
        (kept calls op (users lib b) a (Reach-IsKept empty b r))
