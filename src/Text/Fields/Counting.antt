-- ===== src/Text/Fields/Counting.antt =====
-- How many fields a text can have.
use distributed_kvstore.Prelude.{
  ℕ, suc, ◌+◌, ◌≤◌, ◌≡◌, some, List, [], ◌∷◌, ◌++◌, Bytes, arith, length, length-append,
}
use distributed_kvstore.Text.Fields.{break_at, fields_after, fields}

-- The bytes of the fields, each with a separator.
unfoldable pub total : List Bytes → ℕ
total [] = 0
total (f ∷ fs) = suc (length f) + total fs

total-fields_after :
    (sep : ℕ) (cur s : Bytes) → total (fields_after sep cur s) ≤ length cur + length s + 1
unfolding total fields_after
total-fields_after sep [] [] = omega arith
total-fields_after sep (c ∷ cur) [] = omega arith
total-fields_after sep cur (c ∷ s) = ground (
  arith,
  total-fields_after sep [] s,
  total-fields_after sep (cur ++ c ∷ []) s,
  length-append cur (c ∷ []),
)

-- Each field is paid for by its bytes and its separator, which only the last may lack.
pub total-fields : (sep : ℕ) (s : Bytes) → total (fields sep s) ≤ length s + 1
unfolding fields
total-fields sep s = omega (arith, total-fields_after sep [] s)

-- A text with the character is not empty.
pub length-break_at : (c : ℕ) (s p r : Bytes) → break_at c s ≡ (p, some r) → 1 ≤ length s
unfolding break_at
length-break_at c [] p r e = cc
length-break_at c (b ∷ s) p r e = omega arith
