-- ===== src/Membership.antt =====
-- What is in a list, where lists grow at their end.
use mathlib.Core.Path.{subst}
use mathlib.Core.List.{Memᴰ}
use mathlib.Core.List.Memᴰ.{head, tail}
use distributed_kvstore.Prelude.{◌≡◌, refl, sym, List, [], ◌∷◌, ◌++◌, All}

module _ {A : Type 0} where
  pub Memᴰ-left : (x : A) (xs ys : List A) → Memᴰ x xs → Memᴰ x (xs ++ ys)
  Memᴰ-left x [] ys m = elim m [ ]
  Memᴰ-left x (y ∷ xs) ys (head e) = head e
  Memᴰ-left x (y ∷ xs) ys (tail m) = tail (Memᴰ-left x xs ys m)

  pub Memᴰ-last : (x : A) (xs ys : List A) → ys ≡ x ∷ [] → Memᴰ x (xs ++ ys)
  Memᴰ-last x [] ys e = rw e (head refl)
  Memᴰ-last x (y ∷ xs) ys e = tail (Memᴰ-last x xs ys e)

  pub All-Memᴰ : (P : A → Type 0) (xs : List A) (x : A) → All P xs → Memᴰ x xs → P x
  All-Memᴰ P [] x h m = elim m [ ]
  All-Memᴰ P (y ∷ xs) x (h, hs) (head e) = subst P (sym e) h
  All-Memᴰ P (y ∷ xs) x (h, hs) (tail m) = All-Memᴰ P xs x hs m

  pub All-map : (P Q : A → Type 0) (xs : List A) → ((x : A) → P x → Q x) → All P xs → All Q xs
  All-map P Q [] f h = tt
  All-map P Q (x ∷ xs) f (h, hs) = (f x h, All-map P Q xs f hs)

  pub Memᴰ-middle : (x : A) (xs ys : List A) → Memᴰ x (xs ++ x ∷ ys)
  Memᴰ-middle x [] ys = head refl
  Memᴰ-middle x (y ∷ xs) ys = tail (Memᴰ-middle x xs ys)
