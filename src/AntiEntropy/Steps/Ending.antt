-- ===== src/AntiEntropy/Steps/Ending.antt =====
-- The thread's run ends, whatever the sessions do to the store between its steps.
use mathlib.Core.Path.{subst}
use distributed_kvstore.Prelude.{
  ℕ, ap, zero, suc, ◌+◌, ◌-◌, ◌*◌, ◌≤◌, ◌≡◌, refl, Option-cases, inl, inr, Bool, true, false, List,
  [], ◌∷◌, ◌++◌, Bytes, codes, Result, ok, err, arith, length, if◌then◌else◌,
}
use distributed_kvstore.Text.{◌==◌}
use distributed_kvstore.Dict.{HashOrder}
use distributed_kvstore.Merkle.{Merkle}
use distributed_kvstore.Store.{Shared}
use distributed_kvstore.Node.{AntiEntropyManager}
use distributed_kvstore.Io.{World, pure, after}
use distributed_kvstore.AntiEntropy.{connect, exchange, differing_keys}
use distributed_kvstore.AntiEntropy.Counting.{AtMostHalf, differing_keys-AtMostHalf}
use distributed_kvstore.AntiEntropy.Steps.{
  Phase, beginning, rooted, connected, unequal, listed, answered, updating, taking, finished,
  returned, action, step, landed,
}

-- `read_some` gives no more bytes than the buffer of so many bytes holds.
abbrev pub ReadsWithin : ℕ → World → Type 0
ReadsWithin n W =
    (w : W.State) (request answer : Bytes)
    → (W.exchange n w request).0 ≡ ok answer
    → length answer ≤ n

-- How many steps are left at most.
unfoldable left : Phase → ℕ
left beginning = 4103
left (rooted p root) = 4102
left (connected p root) = 4101
left (unequal p) = 4100
left (listed p s) = 4099
left (answered p s) = 4098
left (updating keys) = 2 * length keys + 1
left (taking key value keys) = 2 * length keys + 2
left (finished r) = 0

-- The answer in hand has come through the buffer.
abbrev Fits : Phase → Type 0
Fits (answered p s) = length s ≤ 4096
Fits _ = Unit

-- The phase is one from which so many steps are left.
abbrev Within : ℕ → Phase → Type 0
Within n phase = Fits phase × (left phase ≤ n)

left_zero : (phase : Phase) → left phase ≤ 0 → (r : Result (Unit {0})) × (phase ≡ finished r)
unfolding left
left_zero (finished r) h = (r, refl)
left_zero beginning h = absurd (omega arith)
left_zero (rooted p root) h = absurd (omega arith)
left_zero (connected p root) h = absurd (omega arith)
left_zero (unequal p) h = absurd (omega arith)
left_zero (listed p s) h = absurd (omega arith)
left_zero (answered p s) h = absurd (omega arith)
left_zero (updating keys) h = absurd (omega arith)
left_zero (taking key value keys) h = absurd (omega arith)

compared-Within : (p : ℕ) (same : Bool) → Within 4100 (if same then returned else unequal p)
unfolding left
compared-Within p true = (tt, omega arith)
compared-Within p false = (tt, omega arith)

module _ (M : Merkle) (H : HashOrder) (W : World) where
  abbrev Config : Type 0
  Config = Shared M × W.State

  -- The steps of the thread, each followed by what others do to the store and the world.
  unfoldable pub disturbed :
      ℕ → (ℕ → Config → Config) → AntiEntropyManager → Phase × Config → Phase × Config
  disturbed zero others manager c = c
  disturbed (suc n) others manager c =
      let (phase, s) = step M H W manager c in disturbed n others manager (phase, others n s)

  landed-Within :
      {A : Type 0} (n : ℕ) (x : Result A × Config) (next : A → Phase)
      → ((a : A) (s : Config) → x ≡ (ok a, s) → Within n (next a))
      → Within n (landed M H W (after x (λ a. pure (next a)))).0
  unfolding left
  landed-Within n (ok a, s) next h = h a s refl
  landed-Within n (err e, s) next h = (tt, omega arith)

  module _ (fits : ReadsWithin 4096 W) (manager : AntiEntropyManager) where
    step-Within :
        (phase : Phase) (s : Config)
        → Fits phase
        → Within (left phase - 1) (step M H W manager (phase, s)).0
    unfolding step action left
    step-Within beginning s h = elim (Option-cases manager.merkle_index) [
      | inl e ↦ rw e (tt, omega arith)
      | inr (p, e) ↦ rw e (tt, omega arith)
    ]
    step-Within (rooted p root) s h =
        landed-Within 4101 (connect M H W s) (λ _. connected p root) (λ _ _ e. (tt, omega arith))
    step-Within (connected p root) s h =
        landed-Within 4100 (exchange M H W 4096 (codes "GET_MERKLE_ROOT") s)
          (λ peer_root. if peer_root == root then returned else unequal p)
          (λ peer_root _ e. compared-Within p (peer_root == root))
    step-Within (unequal p) s h =
        landed-Within 4099 (exchange M H W 4096 (codes "GET_ALL") s) (listed p)
          (λ _ _ e. (tt, omega arith))
    step-Within (listed p keys) s h =
        landed-Within 4098 (exchange M H W 4096 _ s) (answered p) (λ answer s' e.
          (fits s.1 _ answer (ap (λ (x : Result Bytes × Config). x.0) e), omega arith))
    step-Within (answered p answer) s h =
        landed-Within 4097 (differing_keys M H W p answer s) updating (λ keys s' e.
          let half =
            subst (AtMostHalf (length answer + 1))
              (ap (λ (x : Result (List Bytes) × Config). x.0) e)
              (differing_keys-AtMostHalf M H W p s answer) in
          (tt, omega (arith, half, h)))
    step-Within (updating []) s h = (tt, omega arith)
    step-Within (updating (key ∷ keys)) s h =
        landed-Within (left (updating (key ∷ keys)) - 1)
          (exchange M H W 4096 (codes "GET " ++ key) s) (λ value. taking key value keys)
          (λ value s' e. (tt, omega arith))
    step-Within (taking key value keys) s h = (tt, omega arith)
    step-Within (finished r) s h = (tt, omega arith)

    left-disturbed :
        (n : ℕ) (others : ℕ → Config → Config) (c : Phase × Config)
        → Fits c.0
        → left (disturbed n others manager c).0 ≤ left c.0 - n
    unfolding disturbed
    left-disturbed zero others c h = omega arith
    left-disturbed (suc n) others (phase, s) h =
        let (h', l) = step-Within phase s h in
        let (phase', s') = step M H W manager (phase, s) in
        omega (arith, left-disturbed n others (phase', others n s') h', l)

    -- Where every connect, write and read that the thread's run makes returns or throws, and no read
    -- gives more than the 4096 bytes of its buffer, the run takes at most 4103 steps, one for each
    -- use of the store, the network or the index, until it returns or throws, whatever the peer
    -- answers and whatever the sessions do between the steps. The source sets no time limit on a
    -- read, so nothing is said of a peer that stays silent.
    pub disturbed_ends :
        (others : ℕ → Config → Config) (s : Config)
        → (r : Result (Unit {0})) × ((disturbed 4103 others manager (beginning, s)).0 ≡ finished r)
    unfolding left
    disturbed_ends others s =
        left_zero (disturbed 4103 others manager (beginning, s)).0
          (omega (arith, left-disturbed 4103 others (beginning, s) tt))
