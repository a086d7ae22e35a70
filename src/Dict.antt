-- ===== src/Dict.antt =====
-- `std::unordered_map<std::string, V>`: the entries in the order of iteration.
pub mod Lookup
pub mod Merge
use mathlib.Core.List.{Permᴰ}
use distributed_kvstore.Prelude.{
  ℕ, suc, ◌≡◌, refl, Bool, true, false, Option, none, some, List, [], ◌∷◌, Bytes, if◌then◌else◌,
}
use distributed_kvstore.Text.{◌==◌}

abbrev pub Dict {ℓ} : Type ℓ → Type ℓ
Dict V = List (Bytes × V)

-- Where a table puts an entry whose key is new: the standard leaves the order open, and a growing
-- table may reorder what it holds.
pub record HashOrder : Type 1 where
  pub place : (V : Type 0) → Bytes × V → Dict V → Dict V
  pub place-perm : (V : Type 0) (e : Bytes × V) (d : Dict V) → Permᴰ (place V e d) (e ∷ d)

module _ {V : Type 0} where
  -- `find`
  unfoldable pub find : Bytes → Dict V → Option V
  find k [] = none
  find k ((j, v) ∷ d) = if k == j then some v else find k d

  unfoldable pub contains : Bytes → Dict V → Bool
  contains k [] = false
  contains k ((j, v) ∷ d) = if k == j then true else contains k d

  -- Assignment through the reference that `[]` returns for a key that is present.
  unfoldable pub replace : Bytes → V → Dict V → Dict V
  replace k v [] = []
  replace k v ((j, w) ∷ d) = if k == j then (j, v) ∷ d else (j, w) ∷ replace k v d

  -- `erase`; the order of the others is kept.
  unfoldable pub erase : Bytes → Dict V → Dict V
  erase k [] = []
  erase k ((j, w) ∷ d) = if k == j then d else (j, w) ∷ erase k d

  -- `map[key] = value`
  unfoldable pub assign : HashOrder → Bytes → V → Dict V → Dict V
  unfolding contains replace
  assign H k v d = if contains k d then replace k v d else H.place V (k, v) d

  -- No key stands twice.
  abbrev pub NodupKeys : Dict V → Type 0
  NodupKeys [] = Unit
  NodupKeys ((k, v) ∷ d) = (find k d ≡ none) × NodupKeys d

-- Two orders that tables of real implementations show: a new entry in front, or behind the others.
unfoldable pub push_back : {V : Type 0} → Bytes × V → Dict V → Dict V
push_back e [] = e ∷ []
push_back e (x ∷ d) = x ∷ push_back e d
