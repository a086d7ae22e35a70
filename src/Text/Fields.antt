-- ===== src/Text/Fields.antt =====
-- `find` of a character, and `std::getline` with a separator.
pub mod Counting
use distributed_kvstore.Prelude.{
  ℕ, ◌≡◌, refl, true, false, Option, none, some, List, [], ◌∷◌, ◌++◌, Bytes, arith, ◌==◌ as nat_eq,
  if◌then◌else◌, length, ◌<◌,
}
use mathlib.Core.List.{append_assoc, append-nil}
use distributed_kvstore.Text.{Lacks}

-- `s.substr(0, pos)` and `s.substr(pos + 1)` where `pos` is the first place of `c`; the second is
-- missing if `c` is not there, and then the first is the whole text.
unfoldable pub break_at : ℕ → Bytes → Bytes × Option Bytes
break_at c [] = ([], none)
break_at c (b ∷ s) = let (p, r) = break_at c s in if nat_eq b c then ([], some s) else (b ∷ p, r)

-- What is left behind the last separator is a field unless it is empty.
abbrev pub last_field : Bytes → List Bytes
last_field [] = []
last_field (c ∷ s) = (c ∷ s) ∷ []

-- The texts that a loop of `getline(iss, field, sep)` reads, the first after `cur`.
unfoldable pub fields_after : ℕ → Bytes → Bytes → List Bytes
fields_after sep cur [] = last_field cur
fields_after sep cur (c ∷ s) = elim (nat_eq c sep) [
  | true ↦ cur ∷ fields_after sep [] s
  | false ↦ fields_after sep (cur ++ c ∷ []) s
]

unfoldable pub fields : ℕ → Bytes → List Bytes
unfolding fields_after
fields sep s = fields_after sep [] s

pub break_at-append : (c : ℕ) (p r : Bytes) → Lacks c p → break_at c (p ++ c ∷ r) ≡ (p, some r)
unfolding break_at
break_at-append c [] r h = ground arith
break_at-append c (b ∷ p) r (hb, h) = ground (arith, break_at-append c p r h)

pub break_at-Lacks : (c : ℕ) (p : Bytes) → Lacks c p → break_at c p ≡ (p, none)
unfolding break_at
break_at-Lacks c [] h = refl
break_at-Lacks c (b ∷ p) (hb, h) = ground (arith, break_at-Lacks c p h)

-- What follows the character is shorter than the whole.
pub break_at-shorter : (c : ℕ) (s p r : Bytes) → break_at c s ≡ (p, some r) → length r < length s
unfolding break_at
break_at-shorter c [] p r h = cc
break_at-shorter c (b ∷ s) p r h = ground (arith, break_at-shorter c s (break_at c s).0 r)

fields_after-append :
    (sep : ℕ) (cur p s : Bytes)
    → Lacks sep p
    → fields_after sep cur (p ++ sep ∷ s) ≡ (cur ++ p) ∷ fields_after sep [] s
unfolding fields_after
fields_after-append sep cur [] s h = ground (arith, append-nil cur)
fields_after-append sep cur (c ∷ p) s (hc, h) =
    ground (arith, fields_after-append sep (cur ++ c ∷ []) p s h, append_assoc cur (c ∷ []) p)

pub fields-append :
    (sep : ℕ) (p s : Bytes) → Lacks sep p → fields sep (p ++ sep ∷ s) ≡ p ∷ fields sep s
unfolding fields
fields-append sep p s h = fields_after-append sep [] p s h
