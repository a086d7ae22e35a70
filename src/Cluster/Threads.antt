-- ===== src/Cluster/Threads.antt =====
-- The threads of `propagate_update` in both nodes, and how often they attempt to write.
use mathlib.Core.Path.{subst}
use distributed_kvstore.Prelude.{
  ℕ, suc, ◌+◌, ◌-◌, ◌*◌, ◌≤◌, ◌<◌, ◌≡◌, ap, List, [], ◌∷◌, ◌++◌, Bytes, All, All-append, All-middle,
  All-replace, length, length-append, arith, inl, inr, take,
}
use distributed_kvstore.Dict.{HashOrder}
use distributed_kvstore.Merkle.{Merkle}
use distributed_kvstore.Node.Sent.{
  IsMessage, process_command-IsQuiet, process_command-IsMessage, take-IsMessage,
}
use distributed_kvstore.Requests.{max_retries}
use distributed_kvstore.Cluster.{
  Thread, start_thread, End, Cluster, handle, advance, Reach, started, swapped, commanded,
  delivered, failed, gave_up, synchronised, slept,
}

-- The attempts that threads have left.
abbrev left : List Thread → ℕ
left [] = 0
left (t ∷ ts) = (max_retries - t.retry_count) + left ts

left-append : (ts us : List Thread) → left (ts ++ us) ≡ left ts + left us
left-append [] us = omega arith
left-append (t ∷ ts) us = omega (arith, left-append ts us)

-- The message is marked as one of a peer.
abbrev pub IsMarked : Thread → Type 0
IsMarked t = IsMessage t.message

module _ (M : Merkle) (H : HashOrder) where
  -- The attempts on the way, those that write the message and those that throw.
  abbrev pub attempts : {n : ℕ} {c : Cluster M} → Reach M H n c → ℕ
  attempts started = 0
  attempts (swapped a b r) = attempts r
  attempts (commanded c now command r) = attempts r
  attempts (delivered a b now before after t e le r) = suc (attempts r)
  attempts (failed a b before after t e le r) = suc (attempts r)
  attempts (gave_up a b before after t e le r) = attempts r
  attempts (synchronised a b W w manager e r) = attempts r
  attempts (slept a b result e r) = attempts r

  pub record IsBounded (n made : ℕ) (c : Cluster M) : Type 0 where
    pub first_marked : All IsMarked c.0.threads
    pub second_marked : All IsMarked c.1.threads
    pub bound : length c.0.threads + length c.1.threads ≤ n
    pub budget : made + (left c.0.threads + left c.1.threads) ≤ max_retries * n

  handle-IsBounded :
      (n made : ℕ) (c : Cluster M) (now : ℕ) (command : Bytes)
      → IsBounded n made c
      → IsBounded (suc n) made (handle M H c now command)
  unfolding handle
  handle-IsBounded n made (a, b) now command h =
      elim (process_command-IsQuiet M H a.node now (take 1024 command)) [
        | inl e ↦ rw e (record {
          first_marked = All-append IsMarked a.threads [] h.first_marked tt;
          second_marked = h.second_marked;
          bound = omega (arith, h.bound, length-append a.threads []);
          budget = omega (arith, h.budget, left-append a.threads []);
        })
        | inr (message, e, marked) ↦ rw e (record {
          first_marked =
              All-append IsMarked a.threads (start_thread message ∷ []) h.first_marked (marked, tt);
          second_marked = h.second_marked;
          bound = omega (arith, h.bound, length-append a.threads (start_thread message ∷ []));
          budget = omega (arith, h.budget, left-append a.threads (start_thread message ∷ []));
        })
      ]

  module _ (n made : ℕ) (a b : End M) (before after : List Thread) (t : Thread)
      (e : b.threads ≡ before ++ t ∷ after) (h : IsBounded n made (a, b)) where
    middle-IsMarked : All IsMarked (before ++ t ∷ after)
    middle-IsMarked = subst (All IsMarked) e h.second_marked

    take_out :
        (made' : ℕ)
        → made' ≤ made + (max_retries - t.retry_count)
        → IsMarked t × IsBounded n made' (a, record b { threads = before ++ after })
    take_out made' le =
        let (m, rest) = All-middle IsMarked before t after middle-IsMarked in
        (
          m,
          record {
            first_marked = h.first_marked;
            second_marked = rest;
            bound = omega (
              arith,
              h.bound,
              ap length e,
              length-append before (t ∷ after),
              length-append before after,
            );
            budget = omega (
              arith,
              le,
              h.budget,
              ap left e,
              left-append before (t ∷ after),
              left-append before after,
            );
          },
        )

    fail :
        t.retry_count < max_retries
        → let t' : Thread = record t { retry_count = t.retry_count + 1 } in
          IsBounded n (suc made) (a, record b { threads = before ++ t' ∷ after })
    fail lt = record {
      first_marked = h.first_marked;
      second_marked = All-replace IsMarked before t _ after (λ m. m) middle-IsMarked;
      bound = omega (
        arith,
        h.bound,
        ap length e,
        length-append before (t ∷ after),
        length-append before (record t { retry_count = t.retry_count + 1 } ∷ after),
      );
      budget = omega (
        arith,
        lt,
        h.budget,
        ap left e,
        left-append before (t ∷ after),
        left-append before (record t { retry_count = t.retry_count + 1 } ∷ after),
      );
    }

  deliver-IsBounded :
      (n made : ℕ) (c : Cluster M) (now : ℕ) (message : Bytes)
      → IsMessage message
      → IsBounded n made c
      → IsBounded n made (handle M H c now message)
  unfolding handle
  deliver-IsBounded n made (a, b) now message marked h =
      rw
        (process_command-IsMessage M H a.node now (take 1024 message)
          (take-IsMessage message marked))
        (record {
          first_marked = All-append IsMarked a.threads [] h.first_marked tt;
          second_marked = h.second_marked;
          bound = omega (arith, h.bound, length-append a.threads []);
          budget = omega (arith, h.budget, left-append a.threads []);
        })

  pub Reach-IsBounded : (n : ℕ) (c : Cluster M) (r : Reach M H n c) → IsBounded n (attempts r) c
  unfolding advance
  Reach-IsBounded n c started = record {
    first_marked = tt;
    second_marked = tt;
    bound = omega arith;
    budget = omega arith;
  }
  Reach-IsBounded n c (swapped a b r) =
      let i = Reach-IsBounded n (a, b) r in
      record {
        first_marked = i.second_marked;
        second_marked = i.first_marked;
        bound = omega (arith, i.bound);
        budget = omega (arith, i.budget);
      }
  Reach-IsBounded n c (commanded {n = m} d now command r) =
      handle-IsBounded m (attempts r) d now command (Reach-IsBounded m d r)
  Reach-IsBounded n c (delivered a b now before after t e lt r) =
      let (marked, i) =
        take_out n (attempts r) a b before after t e (Reach-IsBounded n (a, b) r) (suc (attempts r))
          (omega (arith, lt)) in
      deliver-IsBounded n (suc (attempts r)) (a, _) now t.message marked i
  Reach-IsBounded n c (failed a b before after t e lt r) =
      fail n (attempts r) a b before after t e (Reach-IsBounded n (a, b) r) lt
  Reach-IsBounded n c (gave_up a b before after t e le r) =
      (take_out n (attempts r) a b before after t e (Reach-IsBounded n (a, b) r) (attempts r)
        (omega arith)).1
  Reach-IsBounded n c (synchronised a b W w manager e r) =
      let i = Reach-IsBounded n (a, b) r in
      record {
        first_marked = i.first_marked;
        second_marked = i.second_marked;
        bound = i.bound;
        budget = i.budget;
      }
  Reach-IsBounded n c (slept a b result e r) =
      let i = Reach-IsBounded n (a, b) r in
      record {
        first_marked = i.first_marked;
        second_marked = i.second_marked;
        bound = i.bound;
        budget = i.budget;
      }

  -- Messages never multiply: however commands, attempts of threads and steps of anti-entropy
  -- interleave, at most as many threads wait in both nodes as commands came from outside, and the
  -- attempts that they made, with success or without, are at most five times as many.
  pub Reach-attempts :
      (n : ℕ) (c : Cluster M) (r : Reach M H n c)
      → (length c.0.threads + length c.1.threads ≤ n) × (attempts r ≤ max_retries * n)
  Reach-attempts n c r = let i = Reach-IsBounded n c r in (i.bound, omega (arith, i.budget))
