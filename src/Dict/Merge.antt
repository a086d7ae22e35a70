-- ===== src/Dict/Merge.antt =====
-- Loops that assign the entries of one table to another.
use distributed_kvstore.Prelude.{◌≡◌, refl, ap, ◌∙◌, Option, none, some, [], ◌∷◌, Bytes, arith}
use distributed_kvstore.Dict.{Dict, HashOrder, find, assign, NodupKeys}
use distributed_kvstore.Dict.Lookup.{find-assign, assign-NodupKeys}

abbrev pub or_else {ℓ} : {A : Type ℓ} → Option A → Option A → Option A
or_else none o = o
or_else (some a) o = some a

pub or_else-none {ℓ} : {A : Type ℓ} (o : Option A) → or_else o none ≡ o
or_else-none none = refl
or_else-none (some a) = refl

abbrev pub map_entry : {V W : Type 0} → (V → W) → Option V → Option W
map_entry f none = none
map_entry f (some v) = some (f v)

module _ {V W : Type 0} (f : V → W) where
  -- The table with `f` of each value.
  abbrev pub map_values : Dict V → Dict W
  map_values [] = []
  map_values ((k, v) ∷ d) = (k, f v) ∷ map_values d

  pub find-map_values : (k : Bytes) (d : Dict V) → find k (map_values d) ≡ map_entry f (find k d)
  unfolding find
  find-map_values k [] = refl
  find-map_values k ((j, v) ∷ d) = ground (arith, find-map_values k d)

  pub map_values-NodupKeys : (d : Dict V) → NodupKeys d → NodupKeys (map_values d)
  map_values-NodupKeys [] n = tt
  map_values-NodupKeys ((j, v) ∷ d) (fresh, n) =
      (find-map_values j d ∙ ap (λ (o : Option V). map_entry f o) fresh, map_values-NodupKeys d n)

module _ (H : HashOrder) {V : Type 0} where
  unfoldable pub assign_all : Dict V → Dict V → Dict V
  assign_all [] out = out
  assign_all ((k, v) ∷ d) out = assign_all d (assign H k v out)

  -- Of the entries of a table that holds no key twice, each is found in the other table afterwards.
  pub find-assign_all :
      (d out : Dict V) (k : Bytes)
      → NodupKeys d
      → NodupKeys out
      → find k (assign_all d out) ≡ or_else (find k d) (find k out)
  unfolding assign_all find
  find-assign_all [] out k n m = refl
  find-assign_all ((j, v) ∷ d) out k (fresh, n) m =
      find-assign_all d (assign H j v out) k n (assign-NodupKeys H j v out m)
      ∙ ground (arith, find-assign H j k v out m)

  pub assign_all-NodupKeys : (d out : Dict V) → NodupKeys out → NodupKeys (assign_all d out)
  unfolding assign_all
  assign_all-NodupKeys [] out m = m
  assign_all-NodupKeys ((j, v) ∷ d) out m = assign_all-NodupKeys d _ (assign-NodupKeys H j v out m)
