-- ===== src/Session/Events/Bounded.antt =====
-- What holds of a listening node however its events come.
use distributed_kvstore.Prelude.{
  ℕ, zero, suc, ◌+◌, ◌≤◌, ◌≡◌, refl, true, some, List, [], ◌∷◌, ◌++◌, get_elem?, set_elem, arith,
  take, length, length-append, length-set_elem,
}
use distributed_kvstore.Dict.{HashOrder}
use distributed_kvstore.Merkle.{Merkle}
use distributed_kvstore.Node.{Node}
use distributed_kvstore.Node.Running.{IsRunning, process_command-IsRunning}
use distributed_kvstore.Session.Events.{
  Stage, reading, writing, ended, Listener, on_accept, on_read, on_write, Serves, listening,
  accepted, accept_failed, received, read_failed, written,
}

abbrev waits : Stage → ℕ
waits reading = 1
waits (writing response) = 0
waits ended = 0

-- The sessions that wait for their request.
abbrev pub unread : List Stage → ℕ
unread [] = 0
unread (s ∷ ss) = waits s + unread ss

unread-append : (ss : List Stage) (s : Stage) → unread (ss ++ s ∷ []) ≡ unread ss + waits s
unread-append [] s = omega arith
unread-append (t ∷ ss) s = omega (arith, unread-append ss s)

unread-set_elem :
    (ss : List Stage) (i : ℕ) (old new : Stage)
    → get_elem? ss i ≡ some old
    → unread (set_elem ss i new) + waits old ≡ unread ss + waits new
unread-set_elem [] i old new h = cc
unread-set_elem (s ∷ ss) zero old new h = let e : s ≡ old = cc in rw e (omega arith)
unread-set_elem (s ∷ ss) (suc i) old new h = omega (arith, unread-set_elem ss i old new h)

module _ (M : Merkle) (H : HashOrder) (n : Node M) where
  record IsServing (a h : ℕ) (l : Listener M) : Type 0 where
    pub armed : l.accepting ≡ true
    pub counted : length l.sessions ≡ a
    pub handled : h + unread l.sessions ≤ a
    pub running : IsRunning M H l.node

  Serves-IsServing :
      (a h : ℕ) (l : Listener M) → IsRunning M H n → Serves M H n a h l → IsServing a h l
  unfolding on_accept on_read on_write
  Serves-IsServing a h l r listening = record {
    armed = refl;
    counted = refl;
    handled = omega arith;
    running = r;
  }
  Serves-IsServing a h l r (accepted {a = b} k e s) =
      let v = Serves-IsServing b h k r s in
      record {
        armed = refl;
        counted = omega (arith, v.counted, length-append k.sessions (reading ∷ []));
        handled = omega (arith, v.handled, unread-append k.sessions reading);
        running = v.running;
      }
  Serves-IsServing a h l r (accept_failed k e s) =
      let v = Serves-IsServing a h k r s in
      record { armed = refl; counted = v.counted; handled = v.handled; running = v.running }
  Serves-IsServing a h l r (received {h = g} k i now request e s) =
      let v = Serves-IsServing a g k r s in
      record {
        armed = v.armed;
        counted = omega (arith, v.counted, length-set_elem k.sessions i (writing _));
        handled = omega (arith, v.handled, unread-set_elem k.sessions i reading (writing _) e);
        running = process_command-IsRunning M H k.node now (take 1024 request) v.running;
      }
  Serves-IsServing a h l r (read_failed k i now e s) =
      let v = Serves-IsServing a h k r s in
      record {
        armed = v.armed;
        counted = omega (arith, v.counted, length-set_elem k.sessions i ended);
        handled = omega (arith, v.handled, unread-set_elem k.sessions i reading ended e);
        running = v.running;
      }
  Serves-IsServing a h l r (written k i response e s) =
      let v = Serves-IsServing a h k r s in
      record {
        armed = v.armed;
        counted = omega (arith, v.counted, length-set_elem k.sessions i ended);
        handled = omega (arith, v.handled, unread-set_elem k.sessions i (writing response) ended e);
        running = v.running;
      }

  -- However accepts, reads and writes complete, with errors or without, a running node goes on
  -- listening and running. It has a session for each connection that it accepted, and the requests
  -- that it handled and the sessions that still wait for one are at most as many.
  pub Serves-bounded :
      (a h : ℕ) (l : Listener M)
      → IsRunning M H n
      → Serves M H n a h l
      → (l.accepting ≡ true)
        × (length l.sessions ≡ a)
        × (h + unread l.sessions ≤ a)
        × IsRunning M H l.node
  Serves-bounded a h l r s =
      let v = Serves-IsServing a h l r s in (v.armed, v.counted, v.handled, v.running)
