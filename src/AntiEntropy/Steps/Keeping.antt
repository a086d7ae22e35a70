-- ===== src/AntiEntropy/Steps/Keeping.antt =====
-- What every single step of a run keeps.
use mathlib.Core.Path.{subst}
use distributed_kvstore.Prelude.{
  ◌≡◌, ◌⊎◌, sym, List, Bytes, refl, Option-cases, inl, inr, [], ◌∷◌, Result, ok, err,
}
use distributed_kvstore.Dict.{HashOrder}
use distributed_kvstore.Merkle.{Merkle}
use distributed_kvstore.Store.{Shared, set}
use distributed_kvstore.Node.{AntiEntropyManager}
use distributed_kvstore.Io.{World, pure, state, ◌>>=◌}
use distributed_kvstore.AntiEntropy.{Run}
use distributed_kvstore.AntiEntropy.Safety.{
  Keeps, SetKeeps, Keeps-pure, Keeps-bind, Keeps-state, Keeps-connect, Keeps-exchange,
  Keeps-differing_keys,
}
use distributed_kvstore.AntiEntropy.Steps.{
  Phase, beginning, rooted, connected, unequal, listed, answered, updating, taking, finished,
  returned, action, step, landed,
}

-- The phases whose action does not write to the store, and the others.
abbrev pub Reads : Phase → Type 0
Reads (taking key value keys) = ⊥
Reads _ = Unit

pub Phase-cases :
    (phase : Phase)
    → Reads phase
      ⊎ ((key : Bytes) × (value : Bytes) × (keys : List Bytes) × (phase ≡ taking key value keys))
Phase-cases beginning = inl tt
Phase-cases (rooted p root) = inl tt
Phase-cases (connected p root) = inl tt
Phase-cases (unequal p) = inl tt
Phase-cases (listed p s) = inl tt
Phase-cases (answered p s) = inl tt
Phase-cases (updating keys) = inl tt
Phase-cases (taking key value keys) = inr (key, value, keys, refl)
Phase-cases (finished r) = inl tt

module _ (M : Merkle) (H : HashOrder) (W : World) (P : Shared M → Type 0) where
  Keeps-next :
      {A : Type 0} (m : Run M H W A) (next : A → Phase)
      → Keeps M H W P m
      → Keeps M H W P (m >>= λ a. pure (next a))
  Keeps-next m next h = Keeps-bind M H W P m _ h (λ a. Keeps-pure M H W P (next a))

  Keeps-reading :
      (manager : AntiEntropyManager) (phase : Phase)
      → Reads phase
      → Keeps M H W P (action M H W manager phase)
  unfolding action
  Keeps-reading manager beginning h = elim (Option-cases manager.merkle_index) [
    | inl e ↦ rw e (Keeps-pure M H W P returned)
    | inr (p, e) ↦ rw e (Keeps-next state _ (Keeps-state M H W P))
  ]
  Keeps-reading manager (rooted p root) h = Keeps-next _ _ (Keeps-connect M H W P)
  Keeps-reading manager (connected p root) h = Keeps-next _ _ (Keeps-exchange M H W P 4096 _)
  Keeps-reading manager (unequal p) h = Keeps-next _ _ (Keeps-exchange M H W P 4096 _)
  Keeps-reading manager (listed p s) h = Keeps-next _ _ (Keeps-exchange M H W P 4096 _)
  Keeps-reading manager (answered p s) h = Keeps-next _ _ (Keeps-differing_keys M H W P p s)
  Keeps-reading manager (updating []) h = Keeps-pure M H W P returned
  Keeps-reading manager (updating (key ∷ keys)) h = Keeps-next _ _ (Keeps-exchange M H W P 4096 _)
  Keeps-reading manager (taking key value keys) h = absurd h
  Keeps-reading manager (finished r) h = Keeps-pure M H W P (finished r)

  landed-keeps : (x : Result Phase × (Shared M × W.State)) → P x.1.0 → P (landed M H W x).1.0
  landed-keeps (ok phase, s) h = h
  landed-keeps (err e, s) h = h

module _ (M : Merkle) (H : HashOrder) (W : World) (manager : AntiEntropyManager) where
  pub step-taking :
      (key value : Bytes) (keys : List Bytes) (s : Shared M × W.State)
      → (step M H W manager (taking key value keys, s)).1.0
        ≡ (set H M s.0 key value (W.clock s.1)).0
  unfolding step action
  step-taking key value keys s = refl

  pub step-reading :
      (phase : Phase) (s : Shared M × W.State)
      → Reads phase
      → (step M H W manager (phase, s)).1.0 ≡ s.0
  unfolding step
  step-reading phase s h =
      let P : Shared M → Type 0 = λ t. t ≡ s.0 in
      landed-keeps M H W P _ ((Keeps-reading M H W P manager phase h).at s refl)

  -- A step leaves the store, or writes to it once at the time of its clock.
  pub step-shared :
      (phase : Phase) (s : Shared M × W.State)
      → ((step M H W manager (phase, s)).1.0 ≡ s.0)
        ⊎ ((key : Bytes) × (value : Bytes) × ((step M H W manager (phase, s)).1.0
              ≡ (set H M s.0 key value (W.clock s.1)).0))
  step-shared phase s = elim (Phase-cases phase) [
    | inl h ↦ inl (step-reading phase s h)
    | inr (key, value, keys, e) ↦ inr (key, value, rw e (step-taking key value keys s))
  ]

  pub Keeps-step :
      (P : Shared M → Type 0)
      → SetKeeps M H W P
      → (phase : Phase) (s : Shared M × W.State) → P s.0
      → P (step M H W manager (phase, s)).1.0
  Keeps-step P k phase s h = elim (step-shared phase s) [
    | inl e ↦ subst P (sym e) h
    | inr (key, value, e) ↦ subst P (sym e) (k s.0 key value (W.clock s.1) h)
  ]
