-- ===== src/HashMap/Laws.antt =====
-- The laws of the map operations, in conditional form, and the sizes of maps.
use xerv.Prelude.{
  suc, ◌≤◌, ◌≡◌, ◌≢◌, refl, false, none, some, [], ◌∷◌, arith, ◌==◌, if◌then◌else◌, contains,
  occurs, length, ap,
}
use xerv.Prelude.Eq.{Eq}
use xerv.HashMap.{HashMap, keys, len, get, insert, remove, contains_key}

module _ {ℓ κ} {K : Type ℓ} {V : Type κ} ⦃e : Eq K⦄ where
  pub get-insert :
      (m : HashMap K V) (k j : K) (v : V)
      → get (insert m k v) j ≡ (if k == j then some v else get m j)
  unfolding get insert
  get-insert [] k j v = refl
  get-insert ((i, w) ∷ m) k j v =
      ground (arith, e.same_iff k j, e.same_iff i k, e.same_iff i j, get-insert m k j v)

  pub get-insert_other :
      (m : HashMap K V) (k j : K) → k ≢ j → (v : V) → get (insert m k v) j ≡ get m j
  get-insert_other m k j h v = ground (arith, get-insert m k j v, e.same_iff k j, h)

  pub get-remove :
      (m : HashMap K V) (k j : K) → get (remove m k) j ≡ (if k == j then none else get m j)
  unfolding get remove
  get-remove [] k j = ground arith
  get-remove ((i, w) ∷ m) k j =
      ground (arith, e.same_iff k j, e.same_iff i k, e.same_iff i j, get-remove m k j)

  pub contains-keys : (m : HashMap K V) (k : K) → contains (keys m) k ≡ contains_key m k
  unfolding get
  contains-keys [] k = refl
  contains-keys ((i, w) ∷ m) k = ground (arith, contains-keys m k)

  -- No key has two entries.
  abbrev pub IsUnique : HashMap K V → Type 0
  IsUnique [] = Unit
  IsUnique ((k, _) ∷ m) = (contains_key m k ≡ false) × IsUnique m

  pub insert-IsUnique : (m : HashMap K V) (k : K) (v : V) → IsUnique m → IsUnique (insert m k v)
  unfolding get insert
  insert-IsUnique [] k v u = (refl, tt)
  insert-IsUnique ((i, w) ∷ m) k v u =
      ground (arith, insert-IsUnique m k v, get-insert m k i v, e.same_iff i k, e.same_iff k i)

  pub remove-IsUnique : (m : HashMap K V) (k : K) → IsUnique m → IsUnique (remove m k)
  unfolding get remove
  remove-IsUnique [] k u = tt
  remove-IsUnique ((i, w) ∷ m) k u =
      ground (arith, remove-IsUnique m k, get-remove m k i, e.same_iff k i)

  pub len-insert :
      (m : HashMap K V) (k : K) (v : V)
      → len (insert m k v) ≡ (if contains_key m k then len m else suc (len m))
  unfolding get insert
  len-insert [] k v = refl
  len-insert ((i, w) ∷ m) k v = ground (arith, len-insert m k v)

  pub len-insert_le : (m : HashMap K V) (k : K) (v : V) → len (insert m k v) ≤ suc (len m)
  len-insert_le m k v = ground (arith, len-insert m k v)

  remove-absent : (m : HashMap K V) (k : K) → contains_key m k ≡ false → remove m k ≡ m
  unfolding get remove
  remove-absent [] k h = refl
  remove-absent ((i, w) ∷ m) k h = ground (arith, remove-absent m k)

  pub len-remove :
      (m : HashMap K V) (k : K)
      → IsUnique m
      → len m ≡ (if contains_key m k then suc (len (remove m k)) else len (remove m k))
  unfolding get remove
  len-remove [] k u = refl
  len-remove ((i, w) ∷ m) k u =
      ground (arith, len-remove m k u.1, remove-absent m k, e.same_iff i k)

  pub occurs-keys :
      (m : HashMap K V) (k : K)
      → IsUnique m
      → occurs k (keys m) ≡ (if contains_key m k then 1 else 0)
  unfolding get
  occurs-keys [] k u = refl
  occurs-keys ((i, w) ∷ m) k u = ground (arith, occurs-keys m k u.1, e.same_iff i k)

module _ {ℓ κ} {K : Type ℓ} {V : Type κ} where
  pub length-keys : (m : HashMap K V) → length (keys m) ≡ len m
  length-keys [] = refl
  length-keys ((k, v) ∷ m) = ap suc (length-keys m)
