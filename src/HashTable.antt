-- ===== src/HashTable.antt =====
-- The chained hash table that the routing library (`addr_hash` in src/lib/interc/ldlib.c) and the
-- page-locking library (`alloc_table` in src/lib/mlock/ldlib.c) each keep of their allocations: an
-- array of singly linked chains, an entry pushed at the head of its chain, found and unlinked by a
-- walk that stops at the first match.
pub mod Laws
use kumf.Base.{ℕ, ◌==◌, if◌then◌else◌, List, [], ◌∷◌, Option, none, some}
use kumf.Base.Store.{update}

module _ {ℓ} {E : Type ℓ} (key : E → ℕ) where
  -- the first entry of a chain under an address
  unfoldable pub find : ℕ → List E → Option E
  find a [] = none
  find a (e ∷ c) = if key e == a then some e else find a c

  -- `*pp = e->next` at that entry
  unfoldable pub unlink : ℕ → List E → List E
  unlink a [] = []
  unlink a (e ∷ c) = if key e == a then c else e ∷ unlink a c

  module _ (hash : ℕ → ℕ) where
    unfoldable pub lookup : ℕ → (ℕ → List E) → Option E
    lookup a t = find a (t (hash a))

    -- `e->next = table[h]; table[h] = e`
    unfoldable pub push : E → (ℕ → List E) → ℕ → List E
    push e t = update t (hash (key e)) (e ∷ t (hash (key e)))

    unfoldable pub remove : ℕ → (ℕ → List E) → ℕ → List E
    remove a t = update t (hash a) (unlink a (t (hash a)))
