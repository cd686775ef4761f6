-- ===== src/Prof/Indices.antt =====
-- The numbers that `tids` lists, which are taken in order.
use kumf.Base.{
  ℕ, zero, suc, ◌+◌, ◌-◌, ◌<◌, ◌≤◌, ◌≡◌, ◌≢◌, ltb, ◌==◌, if◌then◌else◌, not, none, some, arith,
  Bool-cases, inl, inr,
}
use kumf.Base.Store.{update}
use kumf.Prof.Log.{max_tid, find_free}

pub find_free-some :
    (left i : ℕ) (tids : ℕ → ℕ) (k : ℕ)
    → find_free left i tids ≡ some k
    → (i ≤ k) × (k < i + left) × (tids k ≡ 0)
unfolding find_free
find_free-some zero i tids k h = cc
find_free-some (suc left) i tids k h = ground (arith, find_free-some left (i + 1) tids k)

-- The indices from 1 to `n` are taken, and no others.
abbrev pub IsPrefix : ℕ → (ℕ → ℕ) → Type 0
IsPrefix n tids = (k : ℕ) → not (tids (suc k) == 0) ≡ ltb k n

-- The indices are taken in order.
abbrev pub HasPrefix : (ℕ → ℕ) → Type 0
HasPrefix tids = (n : ℕ) × (n < max_tid) × IsPrefix n tids

find_free-prefix :
    (left k m : ℕ) (tids : ℕ → ℕ)
    → IsPrefix (k + m) tids
    → find_free left (suc k) tids ≡ (if ltb m left then some (suc (k + m)) else none)
unfolding find_free
find_free-prefix zero k m tids listed = ground arith
find_free-prefix (suc left) k zero tids listed = ground (arith, listed k)
find_free-prefix (suc left) k (suc m) tids listed =
    let shift : k + suc m ≡ suc k + m = omega arith in
    let rest = find_free-prefix left (suc k) m tids (rw shift at listed) in
    ground (arith, listed k, rest)

pub taken-HasPrefix :
    (me i : ℕ) (tids : ℕ → ℕ)
    → me ≢ 0
    → find_free (max_tid - 1) 1 tids ≡ some i
    → HasPrefix tids
    → HasPrefix (update tids i me)
taken-HasPrefix me i tids nz found (n, fits, listed) =
    let first = find_free-prefix 511 0 n tids (λ k. ground (arith, listed k)) in
    (suc n, ground (arith, first), λ k. ground (arith, listed k, first))

-- Every index is taken.
abbrev pub IsFull : (ℕ → ℕ) → Type 0
IsFull tids = (i : ℕ) → 0 < i → i < max_tid → tids i ≢ 0

find_free-none :
    (left i : ℕ) (tids : ℕ → ℕ)
    → find_free left i tids ≡ none
    → (k : ℕ) → i ≤ k
    → k < i + left
    → tids k ≢ 0
unfolding find_free
find_free-none zero i tids h k low high = absurd (omega arith)
find_free-none (suc left) i tids h k low high = elim (Bool-cases (tids i == 0)) [
  | inl free ↦ absurd (some-none (rw free at h))
  | inr taken ↦ elim (Bool-cases (i == k)) [
    | inl here ↦ let e : k ≡ i = ground arith in ground arith
    | inr behind ↦ find_free-none left (i + 1) tids (rw taken at h) k (ground arith) (ground arith)
  ]
]
  where
    some-none : some i ≡ none → ⊥
    some-none e = cc

pub no_free-IsFull : (tids : ℕ → ℕ) → find_free (max_tid - 1) 1 tids ≡ none → IsFull tids
no_free-IsFull tids h i low high =
    find_free-none (max_tid - 1) 1 tids h i (omega arith) (omega arith)
