-- ===== src/AntiEntropy/Steps/Adequacy.antt =====
-- A run that nothing interrupts.
use distributed_kvstore.Prelude.{
  ℕ, suc, ◌≡◌, refl, ap, sym, ◌∙◌, Option-cases, inl, inr, Bool-cases, some, List, [], ◌∷◌, ◌++◌,
  Bytes, codes, Result, ok, err, if◌then◌else◌,
}
use distributed_kvstore.Text.{◌==◌}
use distributed_kvstore.Dict.{HashOrder}
use distributed_kvstore.Merkle.{Merkle}
use distributed_kvstore.MerkleIndex.{get_root_hash}
use distributed_kvstore.Store.{Shared}
use distributed_kvstore.Node.{AntiEntropyManager, deref}
use distributed_kvstore.Io.{World, pure, ◌>>=◌, after, for_each}
use distributed_kvstore.AntiEntropy.{
  Run, connect, exchange, set_now, update_key, differing_keys, synchronise, run_with_index,
  run_anti_entropy,
}
use distributed_kvstore.AntiEntropy.Steps.{
  Phase, beginning, rooted, connected, unequal, listed, answered, updating, taking, finished,
  returned, action, step, steps,
}

module _ (M : Merkle) (H : HashOrder) (W : World) (manager : AntiEntropyManager) where
  abbrev Config : Type 0
  Config = Shared M × W.State

  -- From a phase, some number of steps gives what an action gives.
  abbrev Leads : Phase → Config → Result (Unit {0}) × Config → Type 0
  Leads phase s (r, s') = (n : ℕ) × (steps M H W n manager (phase, s) ≡ (finished r, s'))

  Leads-returned : (s : Config) → Leads returned s (ok tt, s)
  unfolding steps
  Leads-returned s = (0, refl)

  module _ {A : Type 0} (phase : Phase) (m : Run M H W A) (next : A → Phase) (s : Config) where
    Leads-after :
        (x : Result A × Config) (rest : A → Run M H W (Unit {0}))
        → action M H W manager phase s ≡ after x (λ a. pure (next a))
        → ((a : A) (s' : Config) → Leads (next a) s' (rest a s'))
        → Leads phase s (after x rest)
    unfolding steps
    Leads-after (ok a, s') rest e h = let (n, e') = h a s' in (suc n, rw (e) e')
    Leads-after (err x, s') rest e h = (1, rw e refl)

    -- A phase whose action is `m`, and what its run goes on with.
    Leads-bind :
        (rest : A → Run M H W (Unit {0}))
        → action M H W manager phase s ≡ (m >>= λ a. pure (next a)) s
        → ((a : A) (s' : Config) → Leads (next a) s' (rest a s'))
        → Leads phase s ((m >>= rest) s)
    Leads-bind rest e h = Leads-after (m s) rest e h

  after_assoc :
      {A B : Type 0} (x : Result A × Config) (f : A → Run M H W B) (g : B → Run M H W (Unit {0}))
      → after (after x f) g ≡ after x (λ a s. after (f a s) g)
  after_assoc (ok a, s) f g = refl
  after_assoc (err e, s) f g = refl

  Leads-taking :
      (key value : Bytes) (keys : List Bytes) (s : Config)
      → ((s' : Config) → Leads (updating keys) s' (for_each (update_key M H W) keys s'))
      → Leads
          (taking key value keys)
          s
          ((set_now M H W key value >>= λ _. for_each (update_key M H W) keys) s)
  unfolding action
  Leads-taking key value keys s h =
      Leads-bind (taking key value keys) (set_now M H W key value) (λ _. updating keys) s
        (λ _. for_each (update_key M H W) keys) refl (λ _ s'. h s')

  Leads-updating :
      (keys : List Bytes) (s : Config)
      → Leads (updating keys) s (for_each (update_key M H W) keys s)
  unfolding action for_each update_key steps
  Leads-updating [] s = (1, refl)
  Leads-updating (key ∷ keys) s =
      rw
        (after_assoc (exchange M H W 4096 (codes "GET " ++ key) s) (set_now M H W key)
          (λ _. for_each (update_key M H W) keys))
        (Leads-bind (updating (key ∷ keys)) (exchange M H W 4096 (codes "GET " ++ key))
          (λ value. taking key value keys) s
          (λ value s'. after (set_now M H W key value s') (λ _. for_each (update_key M H W) keys))
          refl (λ value s'. Leads-taking key value keys s' (Leads-updating keys)))

  Leads-unequal : (p : ℕ) (s : Config) → Leads (unequal p) s (synchronise M H W p s)
  unfolding action synchronise
  Leads-unequal p s =
      Leads-bind (unequal p) (exchange M H W 4096 (codes "GET_ALL")) (listed p) s _ refl
        λ peer_keys_str s'.
          Leads-bind (listed p peer_keys_str) (exchange M H W 4096 _) (answered p) s' _ refl
            λ peer_paths_str s''.
              Leads-bind (answered p peer_paths_str) (differing_keys M H W p peer_paths_str)
                updating s'' _ refl Leads-updating

  Leads-connected :
      (p : ℕ) (root peer_root : Bytes) (s : Config)
      → Leads
          (if peer_root == root then returned else unequal p)
          s
          ((if peer_root == root then pure tt else synchronise M H W p) s)
  Leads-connected p root peer_root s = elim (Bool-cases (peer_root == root)) [
    | inl e ↦ rw e (Leads-returned s)
    | inr e ↦ rw e (Leads-unequal p s)
  ]

  Leads-rooted :
      (p : ℕ) (root : Bytes) (s : Config)
      → Leads (rooted p root) s (
          (connect M H W >>= λ _. exchange M H W 4096 (codes "GET_MERKLE_ROOT") >>= λ peer_root.
          if peer_root == root then pure tt else synchronise M H W p)
            s)
  unfolding action
  Leads-rooted p root s =
      Leads-bind (rooted p root) (connect M H W) (λ _. connected p root) s _ refl
        λ _ s'.
          Leads-bind (connected p root) (exchange M H W 4096 (codes "GET_MERKLE_ROOT")) _ s' _ refl
            (Leads-connected p root)

  local_root : ℕ → Config → Bytes
  local_root p s = M.hash_string (get_root_hash M (deref M s.0.memory p))

  step-beginning :
      (p : ℕ) (s : Config)
      → manager.merkle_index ≡ some p
      → step M H W manager (beginning, s) ≡ (rooted p (local_root p s), s)
  unfolding step action local_root
  step-beginning p s e = rw e refl

  run_anti_entropy-some :
      (p : ℕ) (s : Config)
      → manager.merkle_index ≡ some p
      → run_anti_entropy M H W manager s ≡ run_with_index M H W p s
  unfolding run_anti_entropy
  run_anti_entropy-some p s e = rw e refl

  -- Where nothing comes between its steps, the thread finishes its run: some number of steps from the
  -- beginning gives the result of the run, returned or thrown, and the state that it leaves.
  pub steps-run :
      (s : Config)
      → (n : ℕ) × (steps M H W n manager (beginning, s)
          ≡ (finished (run_anti_entropy M H W manager s).0, (run_anti_entropy M H W manager s).1))
  unfolding action run_anti_entropy run_with_index steps local_root
  steps-run s = elim (Option-cases manager.merkle_index) [
    | inl e ↦ (1, rw e refl)
    | inr (p, e) ↦
        let (n, e') = Leads-rooted p (local_root p s) s in
        (
          suc n,
          ap (steps M H W n manager) (step-beginning p s e)
              ∙ e'
              ∙ ap
                  (λ (o : Result (Unit {0}) × Config).
                    let c : Phase × Config = (finished o.0, o.1) in c)
                  (sym (run_anti_entropy-some p s e)),
        )
  ]
