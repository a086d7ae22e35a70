-- ===== src/Text/Words/Reading.antt =====
-- What `extract` reads from a text that begins with a word.
use mathlib.Core.List.{append-nil}
use distributed_kvstore.Prelude.{
  ◌≡◌, refl, sym, ap, ◌∙◌, true, false, [], ◌∷◌, ◌++◌, Bytes, codes, arith, All,
}
use distributed_kvstore.Text.Words.{is_space, take_word, extract, IsWord}

-- The text is at its end, or goes on with white space.
abbrev pub Stops : Bytes → Type 0
Stops [] = Unit
Stops (c ∷ s) = is_space c ≡ true

take_word-append :
    (w r : Bytes) → All (λ c. is_space c ≡ false) w → Stops r → take_word (w ++ r) ≡ (w, r)
unfolding take_word
take_word-append [] [] h stop = refl
take_word-append [] (c ∷ r) h stop = rw stop refl
take_word-append (c ∷ w) r (hc, hw) stop = rw (hc, take_word-append w r hw stop) refl

pub extract-append : (w r : Bytes) → IsWord w → Stops r → extract (w ++ r) ≡ (w, r)
unfolding extract
extract-append [] r (filled, h) stop = absurd (filled refl)
extract-append (c ∷ w) r (filled, (hc, hw)) stop = rw (hc, take_word-append w r hw stop, hc) refl

-- A blank in front of a text is skipped.
pub extract-blank : (s : Bytes) → extract (32 ∷ s) ≡ extract s
unfolding extract
extract-blank s = refl

pub extract-nil : extract [] ≡ ([], [])
unfolding extract
extract-nil = refl

-- A word behind a blank.
pub extract_next : (w r : Bytes) → IsWord w → Stops r → extract (32 ∷ (w ++ r)) ≡ (w, r)
extract_next w r h stop = extract-blank (w ++ r) ∙ extract-append w r h stop

pub extract_last : (w : Bytes) → IsWord w → extract (32 ∷ w) ≡ (w, [])
extract_last w h =
    ap (λ (s : Bytes). extract (32 ∷ s)) (sym (append-nil w)) ∙ extract_next w [] h tt

-- Words of the commands.
pub set-IsWord : IsWord (codes "SET")
unfolding is_space
set-IsWord = (λ e. cc, ground arith)

pub del-IsWord : IsWord (codes "DEL")
unfolding is_space
del-IsWord = (λ e. cc, ground arith)

pub get-IsWord : IsWord (codes "GET")
unfolding is_space
get-IsWord = (λ e. cc, ground arith)
