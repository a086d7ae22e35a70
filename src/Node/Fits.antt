-- ===== src/Node/Fits.antt =====
-- Commands and messages that the 1024 bytes of a session's buffer hold.
use distributed_kvstore.Prelude.{
  ℕ, ◌≤◌, ◌≡◌, ◌∷◌, ◌++◌, Bytes, codes, take, take_all, length, length-append, arith, ◌+◌,
  take-append, ap, ◌∙◌, ◌<◌, ◌-◌, [],
}
use distributed_kvstore.Text.Decimal.{to_string}
use distributed_kvstore.Merkle.{Merkle}
use distributed_kvstore.Node.{propagated}

-- What the buffer holds of a text with a head of 14 bytes, a key and more.
pub take_key :
    (head key rest : Bytes)
    → length head ≡ 14
    → length key < 1010
    → take 1024 (head ++ (key ++ 32 ∷ rest)) ≡ head ++ (key ++ 32 ∷ take (1009 - length key) rest)
take_key head key rest e lt =
    take-append head (key ++ 32 ∷ rest) 1024 1010 (omega (arith, e))
    ∙ ap (λ (r : Bytes). head ++ r)
        (take-append key (32 ∷ rest) 1010 (1010 - length key) (omega (arith, lt))
          ∙ ap (λ (r : Bytes). key ++ r)
              (take-append (32 ∷ []) rest (1010 - length key) (1009 - length key)
                (omega (arith, lt))))

module _ (M : Merkle) where
  -- The message to the peer fits the buffer.
  abbrev pub Fits : Bytes → Bytes → Bytes → ℕ → Type 0
  Fits verb key value now = length (propagated M verb key value now) ≤ 1024

  pub length-propagated :
      (verb key value : Bytes) (now : ℕ)
      → length (propagated M verb key value now)
        ≡ 13 + (length verb + (length key + (length value + length (to_string now))))
  length-propagated verb key value now = omega (
    arith,
    length-append verb (32 ∷ (key ++ 32 ∷ (value ++ 32 ∷ to_string now))),
    length-append key (32 ∷ (value ++ 32 ∷ to_string now)),
    length-append value (32 ∷ to_string now),
  )

  pub take-propagated :
      (verb key value : Bytes) (now : ℕ)
      → Fits verb key value now
      → take 1024 (propagated M verb key value now) ≡ propagated M verb key value now
  take-propagated verb key value now fits = take_all 1024 (propagated M verb key value now) fits

  -- So do the client's commands.
  pub take_set :
      (key value : Bytes) (now : ℕ)
      → Fits (codes "SET") key value now
      → take 1024 (codes "SET " ++ (key ++ 32 ∷ value)) ≡ codes "SET " ++ (key ++ 32 ∷ value)
  take_set key value now fits = take_all 1024 (codes "SET " ++ (key ++ 32 ∷ value)) (
      omega (
        arith,
        fits,
        length-propagated (codes "SET") key value now,
        length-append key (32 ∷ value),
      ))

  -- A GET or a DEL.
  pub take_command :
      (verb key value : Bytes) (now : ℕ)
      → length verb ≡ 3
      → Fits verb key value now
      → (c : Bytes) → length c ≡ 4
      → take 1024 (c ++ key) ≡ c ++ key
  take_command verb key value now three fits c four =
      take_all 1024 (c ++ key) (
        omega (arith, fits, three, four, length-propagated verb key value now, length-append c key))
