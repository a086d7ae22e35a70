-- ===== src/Requests/Retry.antt =====
-- The retries of `propagate_update`.
use distributed_kvstore.Prelude.{
  ℕ, zero, suc, ◌+◌, ◌*◌, ◌^◌, ◌≡◌, ◌<◌, refl, sym, ap, ◌∙◌, Bool, true, false, List, [], ◌∷◌,
  arith, length, ◌⊎◌, inl, inr, Bool-cases,
}
use distributed_kvstore.Requests.{retry, max_retries, propagation_thread}

-- The delays before `n` attempts, the first of which is numbered `r`: each is twice the one before.
unfoldable backoff : ℕ → ℕ → List ℕ
backoff zero r = []
backoff (suc n) r = 100 * 2 ^ r ∷ backoff n (r + 1)

shift : (succeeds : ℕ → Bool) (r j : ℕ) → succeeds (r + suc j) ≡ succeeds (r + 1 + j)
shift succeeds r j = ap succeeds (omega arith)

retry-first :
    (succeeds : ℕ → Bool) (left r i : ℕ)
    → i < left
    → succeeds (r + i) ≡ true
    → ((j : ℕ) → j < i → succeeds (r + j) ≡ false)
    → retry succeeds left r ≡ record { delays = backoff (suc i) r; delivered = true }
unfolding retry backoff
retry-first succeeds zero r i h hit miss = absurd (omega arith)
retry-first succeeds (suc left) r zero h hit miss =
    let now : succeeds r ≡ true = rw (sym hit) (ap succeeds (omega arith)) in rw now refl
retry-first succeeds (suc left) r (suc i) h hit miss =
    let now : succeeds r ≡ false = ap succeeds (omega arith) ∙ miss 0 (omega arith) in
    let rest =
      retry-first succeeds left (r + 1) i (omega arith) (sym (shift succeeds r i) ∙ hit)
        (λ j lt. sym (shift succeeds r j) ∙ miss (suc j) (omega arith)) in
    rw now (rw rest refl)

retry-never :
    (succeeds : ℕ → Bool) (left r : ℕ)
    → ((j : ℕ) → j < left → succeeds (r + j) ≡ false)
    → retry succeeds left r ≡ record { delays = backoff left r; delivered = false }
unfolding retry backoff
retry-never succeeds zero r miss = refl
retry-never succeeds (suc left) r miss =
    let now : succeeds r ≡ false = ap succeeds (omega arith) ∙ miss 0 (omega arith) in
    let rest =
      retry-never succeeds left (r + 1)
        (λ j lt. sym (shift succeeds r j) ∙ miss (suc j) (omega arith)) in
    rw now (rw rest refl)

length-backoff : (n r : ℕ) → length (backoff n r) ≡ n
unfolding backoff
length-backoff zero r = refl
length-backoff (suc n) r = ap suc (length-backoff n (r + 1))

-- Where attempt `i` of the five is the first that succeeds, the thread delivers its command and has
-- slept `suc i` times.
propagation_thread-delivers :
    (succeeds : ℕ → Bool) (i : ℕ)
    → i < max_retries
    → succeeds i ≡ true
    → ((j : ℕ) → j < i → succeeds j ≡ false)
    → ((propagation_thread succeeds).delivered ≡ true)
      × (length (propagation_thread succeeds).delays ≡ suc i)
unfolding propagation_thread
propagation_thread-delivers succeeds i lt hit miss =
    let e =
      retry-first succeeds max_retries 0 i lt (from_zero i ∙ hit)
        (λ j below. from_zero j ∙ miss j below) in
    rw e (refl, length-backoff (suc i) 0)
  where
    from_zero : (j : ℕ) → succeeds (0 + j) ≡ succeeds j
    from_zero j = ap succeeds (omega arith)

-- Where all five attempts fail, the thread gives up without delivering its command, after delays of
-- 100, 200, 400, 800 and 1600 milliseconds.
propagation_thread-gives_up :
    (succeeds : ℕ → Bool)
    → ((j : ℕ) → j < max_retries → succeeds j ≡ false)
    → propagation_thread succeeds
      ≡ record { delays = 100 ∷ 200 ∷ 400 ∷ 800 ∷ 1600 ∷ []; delivered = false }
unfolding propagation_thread backoff
propagation_thread-gives_up succeeds miss =
    retry-never succeeds max_retries 0 (λ j lt. from_zero j ∙ miss j lt)
  where
    from_zero : (j : ℕ) → succeeds (0 + j) ≡ succeeds j
    from_zero j = ap succeeds (omega arith)

-- The first success of `left` attempts from the one numbered `r` on, or none.
first_success :
    (succeeds : ℕ → Bool) (left r : ℕ)
    → ((i : ℕ) × (i < left)
        × (succeeds (r + i) ≡ true)
        × ((j : ℕ) → j < i → succeeds (r + j) ≡ false))
      ⊎ ((j : ℕ) → j < left → succeeds (r + j) ≡ false)
first_success succeeds zero r = inr (λ j lt. absurd (omega (arith, lt)))
first_success succeeds (suc left) r = elim (Bool-cases (succeeds r)) [
  | inl e ↦ inl (0, omega arith, ap succeeds (omega arith) ∙ e, λ j lt. absurd (omega (arith, lt)))
  | inr e ↦ elim (first_success succeeds left (r + 1)) [
    | inl (i, lt, hit, miss) ↦ inl (suc i, omega arith, shift succeeds r i ∙ hit, later e i miss)
    | inr miss ↦ inr (later e left miss)
  ]
]
  where
    later :
        succeeds r ≡ false
        → (i : ℕ) → ((j : ℕ) → j < i → succeeds (r + 1 + j) ≡ false)
        → (j : ℕ) → j < suc i
        → succeeds (r + j) ≡ false
    later e i miss zero lt = ap succeeds (omega arith) ∙ e
    later e i miss (suc j) lt = shift succeeds r j ∙ miss j (omega arith)

-- Whatever attempts succeed: either one of the five is the first to, and the thread delivers its
-- command and has slept once before each attempt up to it; or none does, and the thread gives up
-- after delays of 100, 200, 400, 800 and 1600 milliseconds.
pub propagation_thread-outcome :
    (succeeds : ℕ → Bool)
    → ((i : ℕ) × (i < max_retries)
        × (succeeds i ≡ true)
        × ((j : ℕ) → j < i → succeeds j ≡ false)
        × ((propagation_thread succeeds).delivered ≡ true)
        × (length (propagation_thread succeeds).delays ≡ suc i))
      ⊎ (((j : ℕ) → j < max_retries → succeeds j ≡ false)
          × (propagation_thread succeeds
              ≡ record { delays = 100 ∷ 200 ∷ 400 ∷ 800 ∷ 1600 ∷ []; delivered = false }))
propagation_thread-outcome succeeds = elim (first_success succeeds max_retries 0) [
  | inl (i, lt, hit, miss) ↦
      let hit' = sym (from_zero i) ∙ hit in
      let miss' = λ (j : ℕ) (below : j < i). sym (from_zero j) ∙ miss j below in
      let (done, slept) = propagation_thread-delivers succeeds i lt hit' miss' in
      inl (i, lt, hit', miss', done, slept)
  | inr miss ↦
      let miss' = λ (j : ℕ) (below : j < max_retries). sym (from_zero j) ∙ miss j below in
      inr (miss', propagation_thread-gives_up succeeds miss')
]
  where
    from_zero : (j : ℕ) → succeeds (0 + j) ≡ succeeds j
    from_zero j = ap succeeds (omega arith)
