-- ===== src/Io.antt =====
-- Code that talks to a peer: it may throw, and what was done before a throw stays done. The network,
-- the peer and the clock are a parameter, the world.
use distributed_kvstore.Prelude.{ℕ, List, [], ◌∷◌, Bytes, Result, ok, err}

abbrev pub Io {ℓ} : Type 0 → Type ℓ → Type ℓ
Io S A = S → Result A × S

module _ {S : Type 0} where
  abbrev pub pure {ℓ} : {A : Type ℓ} → A → Io S A
  pure a s = (ok a, s)

  abbrev pub lift {ℓ} : {A : Type ℓ} → Result A → Io S A
  lift r s = (r, s)

  abbrev pub state : Io S S
  state s = (ok s, s)

  abbrev pub after {ℓ κ} : {A : Type ℓ} {B : Type κ} → Result A × S → (A → Io S B) → Result B × S
  after (ok a, s) f = f a s
  after (err e, s) f = (err e, s)

  infixl 5 ◌>>=◌ ◌>>◌
  abbrev pub ◌>>=◌ {ℓ κ} : {A : Type ℓ} {B : Type κ} → Io S A → (A → Io S B) → Io S B
  ◌>>=◌ m f s = after (m s) f

  abbrev pub ◌>>◌ {ℓ} : {B : Type ℓ} → Io S (Unit {0}) → Io S B → Io S B
  m >> k = m >>= λ _. k

  -- `catch (std::exception& e)` with a handler that only prints.
  abbrev pub caught : Result (Unit {0}) × S → Result (Unit {0}) × S
  caught (r, s) = (ok tt, s)

  abbrev pub catch_all : Io S (Unit {0}) → Io S (Unit {0})
  catch_all m s = caught (m s)

  -- `for (const auto& x : xs)`
  unfoldable pub for_each {ℓ} : {A : Type ℓ} → (A → Io S (Unit {0})) → List A → Io S (Unit {0})
  for_each f [] s = (ok tt, s)
  for_each f (x ∷ xs) s = after (f x s) (λ _. for_each f xs)

-- What boost::asio and the clock do for the program. `connect` opens a connection in place of the
-- last one. `exchange n` writes a request to it and reads once, at most `n` bytes.
pub record World : Type 1 where
  pub State : Type 0
  pub connect : State → Result (Unit {0}) × State
  pub exchange : ℕ → State → Bytes → Result Bytes × State
  -- the system clock in milliseconds
  pub clock : State → ℕ
