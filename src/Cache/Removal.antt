-- ===== src/Cache/Removal.antt =====
-- What the removal of expired records takes.
use mathlib.Core.Option.{map as map_option}
use emulation_lib.Prelude.{
  ℕ, Bool, true, not, some, List, [], ◌∷◌, ◌≡◌, refl, ap, ◌∙◌, inl, inr, if◌then◌else◌, Bool-cases,
}
use emulation_lib.Prelude.Integers.{pos}
use emulation_lib.Cache.{UserStatus, Timeval}
use emulation_lib.Cache.ListLib.{ListLib}
use emulation_lib.Cache.Store.{Cache, readings}
use emulation_lib.Cache.Spec.{
  gone, remove_expired, survivors, locked_spec, spec, perform, users, users_of,
}
use emulation_lib.Cache.Refines.{perform-spec}

-- The elements that pass a test, in order.
abbrev pub keep {ℓ} : {A : Type ℓ} → (A → Bool) → List A → List A
keep p [] = []
keep p (x ∷ xs) = if p x then x ∷ keep p xs else keep p xs

survivors-keep :
    (expired_count : ℕ) (now : Timeval) (k : ℕ) (us : List UserStatus)
    → survivors expired_count (λ i. now) k us ≡ keep (λ u. not (gone expired_count now u)) us
unfolding survivors
survivors-keep expired_count now k [] = refl
survivors-keep expired_count now k (u ∷ us) = elim (Bool-cases (gone expired_count now u)) [
  | inl old ↦ rw old (survivors-keep expired_count now (readings k u) us)
  | inr young ↦ rw young (ap (◌∷◌ u) (survivors-keep expired_count now (readings k u) us))
]

-- Where the mutex can be locked and the clock stands, the removal of expired records ends with the result 0,
-- and leaves just the records that are not gone, in order: those whose status is not 2, and those whose time,
-- by its seconds and microseconds, is less than the time to expiry in milliseconds ago.
pub remove_expired-keep :
    (lib : ListLib UserStatus) (unlocks allocates has_node : Bool) (now : Timeval)
    (c : Cache lib.ListT)
    → map_option (users_of lib) (
        perform lib
          (record {
            locks = true;
            unlocks = unlocks;
            allocates = allocates;
            has_node = has_node;
            clock = λ i. now;
          })
          remove_expired
          c)
      ≡ some (
        pos 0,
        record (users lib c) {
          cache_list = keep (λ u. not (gone c.expired_count now u)) (lib.vals c.cache_list);
        },
      )
unfolding spec locked_spec
remove_expired-keep lib unlocks allocates has_node now c =
    perform-spec lib _ remove_expired c
    ∙ ap (λ us. some (pos 0, record (users lib c) { cache_list = us }))
        (survivors-keep c.expired_count now 0 (lib.vals c.cache_list))
