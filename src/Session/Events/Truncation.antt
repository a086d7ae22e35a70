-- ===== src/Session/Events/Truncation.antt =====
-- A request that is longer than a session's buffer.
use distributed_kvstore.Prelude.{
  ℕ, zero, suc, ◌≤◌, ◌≡◌, refl, ap, List, [], ◌∷◌, Bytes, take, arith, All, length,
}
use distributed_kvstore.Text.Words.{IsWord}
use distributed_kvstore.Merkle.{Merkle}

All-take : {A : Type 0} (P : A → Type 0) (n : ℕ) (s : List A) → All P s → All P (take n s)
All-take P zero s h = tt
All-take P (suc n) [] h = tt
All-take P (suc n) (c ∷ s) (hc, h) = (hc, All-take P n s h)

pub length-take : (n : ℕ) (s : Bytes) → n ≤ length s → length (take n s) ≡ n
length-take zero s h = refl
length-take (suc n) [] h = absurd (omega (arith, h))
length-take (suc n) (c ∷ s) h = ap suc (length-take n s (omega (arith, h)))

pub take-IsWord : (n : ℕ) (s : Bytes) → 1 ≤ n → IsWord s → IsWord (take n s)
take-IsWord zero s h w = absurd (omega (arith, h))
take-IsWord (suc n) [] h (filled, w) = absurd (filled refl)
take-IsWord (suc n) (c ∷ s) h (filled, w) = (λ e. cc, All-take _ (suc n) (c ∷ s) w)
