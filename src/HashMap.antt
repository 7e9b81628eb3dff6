-- ===== src/HashMap.antt =====
-- Rust's `HashMap` as the code uses it: an association list whose keys are compared by `Eq`. The
-- order of `keys` and `entries` stands for the unspecified iteration order.
pub mod Laws
use xerv.Prelude.{ℕ, Bool, Option, none, some, List, [], ◌∷◌, ◌==◌, if◌then◌else◌, length, is_some}
use xerv.Prelude.Eq.{Eq}

abbrev pub HashMap {ℓ κ} : Type ℓ → Type κ → Type (ℓ ⊔ κ)
HashMap K V = List (K × V)

-- A `HashSet` is a map to the unit type, as in Rust.
abbrev pub HashSet {ℓ} : Type ℓ → Type ℓ
HashSet K = HashMap K (Unit {0})

module _ {ℓ κ} {K : Type ℓ} {V : Type κ} where
  abbrev pub keys : HashMap K V → List K
  keys [] = []
  keys ((k, _) ∷ m) = k ∷ keys m

  abbrev pub len : HashMap K V → ℕ
  len m = length m

module _ {ℓ κ} {K : Type ℓ} {V : Type κ} ⦃e : Eq K⦄ where
  unfoldable pub get : HashMap K V → K → Option V
  get [] k = none
  get ((j, v) ∷ m) k = if j == k then some v else get m k

  -- `insert`: the entry of the key is replaced where it stands, or a new one is added.
  unfoldable pub insert : HashMap K V → K → V → HashMap K V
  insert [] k v = (k, v) ∷ []
  insert ((j, w) ∷ m) k v = let rest = insert m k v in if j == k then (k, v) ∷ m else (j, w) ∷ rest

  unfoldable pub remove : HashMap K V → K → HashMap K V
  remove [] k = []
  remove ((j, w) ∷ m) k = let rest = remove m k in if j == k then rest else (j, w) ∷ rest

  abbrev pub contains_key : HashMap K V → K → Bool
  contains_key m k = is_some (get m k)
