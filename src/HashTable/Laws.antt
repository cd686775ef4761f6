-- ===== src/HashTable/Laws.antt =====
-- The table refines a finite map from addresses to entries, while no chain holds an address twice.
use kumf.Base.{ℕ, ◌≡◌, ◌==◌, if◌then◌else◌, List, [], ◌∷◌, none, some, arith, All}
use kumf.HashTable.{find, unlink, lookup, push, remove}

module _ {ℓ} {E : Type ℓ} (key : E → ℕ) where
  -- no address stands twice in a chain
  abbrev pub IsDistinct : List E → Type ℓ
  IsDistinct [] = Unit
  IsDistinct (e ∷ c) = (find key (key e) c ≡ none) × IsDistinct c

  pub find-unlink :
      (a b : ℕ) (c : List E)
      → IsDistinct c
      → find key b (unlink key a c) ≡ (if a == b then none else find key b c)
  unfolding find unlink
  find-unlink a b [] d = ground arith
  find-unlink a b (e ∷ c) d = ground (arith, find-unlink a b c d.1)

  pub unlink-IsDistinct : (a : ℕ) (c : List E) → IsDistinct c → IsDistinct (unlink key a c)
  unfolding find unlink
  unlink-IsDistinct a [] d = tt
  unlink-IsDistinct a (e ∷ c) d =
      ground (arith, unlink-IsDistinct a c d.1, find-unlink a (key e) c d.1)

  pub find-key : (a : ℕ) (c : List E) (e : E) → find key a c ≡ some e → key e ≡ a
  unfolding find
  find-key a [] e h = cc
  find-key a (x ∷ c) e h = ground (arith, find-key a c e)

  -- a property of every entry of a chain holds of the one found, and survives the unlinking
  pub unlink-All {κ} : (P : E → Type κ) (a : ℕ) (c : List E) → All P c → All P (unlink key a c)
  unfolding unlink
  unlink-All P a [] h = tt
  unlink-All P a (e ∷ c) h = ground (arith, unlink-All P a c h.1)

  module _ (hash : ℕ → ℕ) where
    -- the representation invariant of the table
    abbrev pub IsTable : (ℕ → List E) → Type ℓ
    IsTable t = (i : ℕ) → IsDistinct (t i)

    pub lookup-push :
        (e : E) (a : ℕ) (t : ℕ → List E)
        → lookup key hash a (push key hash e t)
          ≡ (if key e == a then some e else lookup key hash a t)
    unfolding lookup push find
    lookup-push e a t = ground arith

    -- In a table where no chain holds an address twice, the removal of an address is the removal
    -- from a finite map: it hides the entry of that address and of no other.
    pub lookup-remove :
        (a b : ℕ) (t : ℕ → List E)
        → IsTable t
        → lookup key hash b (remove key hash a t) ≡ (if a == b then none else lookup key hash b t)
    unfolding lookup remove find
    lookup-remove a b t d = ground (arith, find-unlink a b (t (hash a)) (d (hash a)))

    pub push-IsTable :
        (e : E) (t : ℕ → List E)
        → lookup key hash (key e) t ≡ none
        → IsTable t
        → IsTable (push key hash e t)
    unfolding lookup push
    push-IsTable e t fresh d i = ground (arith, d i)

    pub remove-IsTable : (a : ℕ) (t : ℕ → List E) → IsTable t → IsTable (remove key hash a t)
    unfolding remove
    remove-IsTable a t d i = ground (arith, d i, unlink-IsDistinct a (t (hash a)) (d (hash a)))

    pub lookup-key : (a : ℕ) (t : ℕ → List E) (e : E) → lookup key hash a t ≡ some e → key e ≡ a
    unfolding lookup
    lookup-key a t e h = find-key a (t (hash a)) e h
