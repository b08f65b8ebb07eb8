-- ===== src/Bdp/Arp/Find.antt =====
-- The search of the table, and what the table holds after a write.
use emulation_lib.Prelude.{
  ℕ, zero, suc, ◌+◌, ◌≤◌, ◌<◌, true, none, some, List, [], ◌∷◌, ◌≡◌, ◌≢◌, inl, inr, arith, refl,
  set, length, if◌then◌else◌, ◌==◌, Bool-cases, get_or-set_self, get_or-set_ne,
}
use emulation_lib.Bdp.Arp.{BdpState, addr_at, blank, memcmp_eq, find_addr}

pub eq_of_memcmp : (a b : List ℕ) → memcmp_eq a b ≡ true → a ≡ b
unfolding memcmp_eq
eq_of_memcmp [] [] h = refl
eq_of_memcmp [] (y ∷ b) h = cc
eq_of_memcmp (x ∷ a) [] h = cc
eq_of_memcmp (x ∷ a) (y ∷ b) h = ground (arith, eq_of_memcmp a b)

pub memcmp_self : (a : List ℕ) → memcmp_eq a a ≡ true
unfolding memcmp_eq
memcmp_self [] = refl
memcmp_self (x ∷ a) = ground (arith, memcmp_self a)

pub find_addr_found :
    (n i k : ℕ) (state : List BdpState) (addr : List ℕ)
    → find_addr n i state addr ≡ some k
    → (i ≤ k) × (k < i + n) × (addr_at state k ≡ addr)
unfolding find_addr
find_addr_found zero i k state addr h = cc
find_addr_found (suc n) i k state addr h =
    ground (arith, find_addr_found n (i + 1) k state addr, eq_of_memcmp (addr_at state i) addr)

pub find_addr_missed :
    (n i k : ℕ) (state : List BdpState) (addr : List ℕ)
    → find_addr n i state addr ≡ none
    → i ≤ k
    → k < i + n
    → addr_at state k ≢ addr
unfolding find_addr
find_addr_missed zero i k state addr h p q e = absurd (omega arith)
find_addr_missed (suc n) i k state addr h p q e = elim (Bool-cases (i == k)) [
  | inl here ↦ ground (arith, memcmp_self (addr_at state i))
  | inr later ↦ ground (arith, find_addr_missed n (i + 1) k state addr)
]

pub addr_at-set :
    (state : List BdpState) (c i : ℕ) (e : BdpState)
    → c < length state
    → addr_at (set state c e) i ≡ (if i == c then e.bdp_addr else addr_at state i)
addr_at-set state c i e h = elim (Bool-cases (i == c)) [
  | inl same ↦ ground (arith, get_or-set_self state c e blank)
  | inr other ↦ ground (arith, get_or-set_ne state c i e blank)
]
