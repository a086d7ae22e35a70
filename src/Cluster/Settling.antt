-- ===== src/Cluster/Settling.antt =====
-- The threads that wait can always come to their ends.
use mathlib.Core.List.{append-nil}
use mathlib.Core.Path.{subst}
use distributed_kvstore.Prelude.{
  ℕ, ◌≡◌, refl, ◌∙◌, List, [], ◌∷◌, All, arith, Bool-cases, inl, inr, ltb, if◌then◌else◌, take,
}
use distributed_kvstore.Dict.{HashOrder}
use distributed_kvstore.Merkle.{Merkle}
use distributed_kvstore.Node.Sent.{process_command-IsMessage, take-IsMessage}
use distributed_kvstore.Requests.{max_retries}
use distributed_kvstore.Cluster.{Thread, End, handle, Reach, swapped, delivered, gave_up}
use distributed_kvstore.Cluster.Threads.{IsMarked, Reach-IsBounded}

module _ (M : Merkle) (H : HashOrder) where
  abbrev pub emptied : End M → End M
  emptied b = record b { threads = [] }

  abbrev receive : ℕ → End M → Thread → End M
  receive now a t = if ltb t.retry_count max_retries then (handle M H (a, a) now t.message).0 else a

  -- The messages of the other end's threads arrive, one after the other; a thread without a retry left
  -- gives up.
  unfoldable pub drain : ℕ → End M → List Thread → End M
  drain now a [] = a
  drain now a (t ∷ ts) = drain now (receive now a t) ts

  receive-threads :
      (now : ℕ) (a : End M) (t : Thread) → IsMarked t → (receive now a t).threads ≡ a.threads
  unfolding handle
  receive-threads now a t m = elim (Bool-cases (ltb t.retry_count max_retries)) [
    | inl e ↦
        rw
          (
            e,
            process_command-IsMessage M H a.node now (take 1024 t.message)
                (take-IsMessage t.message m),
          )
          (append-nil a.threads)
    | inr e ↦ rw e refl
  ]

  drain-threads :
      (now : ℕ) (ts : List Thread) (a : End M)
      → All IsMarked ts
      → (drain now a ts).threads ≡ a.threads
  unfolding drain
  drain-threads now [] a h = refl
  drain-threads now (t ∷ ts) a (m, h) =
      drain-threads now ts (receive now a t) h ∙ receive-threads now a t m

  Reach-receive :
      (n now : ℕ) (a b : End M) (t : Thread) (ts : List Thread)
      → Reach M H n (a, record b { threads = t ∷ ts })
      → Reach M H n (receive now a t, record b { threads = ts })
  unfolding handle
  Reach-receive n now a b t ts r = elim (Bool-cases (ltb t.retry_count max_retries)) [
    | inl e ↦
        rw e (delivered a (record b { threads = t ∷ ts }) now [] ts t refl (ground (arith, e)) r)
    | inr e ↦ rw e (gave_up a (record b { threads = t ∷ ts }) [] ts t refl (ground (arith, e)) r)
  ]

  Reach-drain :
      (n now : ℕ) (ts : List Thread) (a b : End M)
      → Reach M H n (a, record b { threads = ts })
      → Reach M H n (drain now a ts, emptied b)
  unfolding drain
  Reach-drain n now [] a b r = r
  Reach-drain n now (t ∷ ts) a b r =
      Reach-drain n now ts (receive now a t) b (Reach-receive n now a b t ts r)

  -- From every cluster that is reached, one in which no thread waits is reached with no command from
  -- outside. First the threads of the second end leave, one after the other, then those of the
  -- first: one that has a retry left delivers its message, one that has none gives up without, and
  -- no delivery starts another thread.
  pub Reach-settled :
      (n now : ℕ) (a b : End M)
      → Reach M H n (a, b)
      → let a' = drain now a b.threads in
        let b' = drain now (emptied b) a.threads in Reach M H n (emptied a', b') × (b'.threads ≡ [])
  Reach-settled n now a b r =
      let i = Reach-IsBounded M H n (a, b) r in
      let a' = drain now a b.threads in
      let b' = drain now (emptied b) a.threads in
      let kept = drain-threads now b.threads a i.second_marked in
      let Ready : List Thread → Type 1 =
        λ ts. Reach M H n (emptied b, record a' { threads = ts }) in
      (
        swapped b' (emptied a') (
            Reach-drain n now a.threads (emptied b) a'
              (subst Ready kept (swapped a' (emptied b) (Reach-drain n now b.threads a b r)))),
        drain-threads now a.threads (emptied b) i.first_marked,
      )
