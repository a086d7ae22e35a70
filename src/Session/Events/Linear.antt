-- ===== src/Session/Events/Linear.antt =====
-- The sessions of a node as its clients see them together: one command after the other.
use mathlib.Core.Path.{subst}
use mathlib.Core.List.{append_assoc}
use distributed_kvstore.Prelude.{
  ℕ, zero, suc, ◌≡◌, inl, inr, refl, sym, ap, ◌∙◌, some, List, [], ◌∷◌, ◌++◌, Bytes, take,
  get_elem?, set_elem, get_elem?-set_elem,
}
use distributed_kvstore.Dict.{HashOrder, NodupKeys}
use distributed_kvstore.Merkle.{Merkle}
use distributed_kvstore.Node.{Node, process_command}
use distributed_kvstore.Node.Contract.{request, answer, answer_all, Allows}
use distributed_kvstore.Node.Refinement.{
  handle_all, handle_all-answers, handle_all-NodupKeys, process_command-IsAnswer,
}
use distributed_kvstore.Store.Updates.{Registers, view}
use distributed_kvstore.Session.Events.{
  Stage, reading, writing, ended, Listener, on_accept, on_read, on_write, Serves, listening,
  accepted, accept_failed, received, read_failed, written,
}

-- A command that was handled: its session, the time and the text.
abbrev pub Entry : Type 0
Entry = ℕ × (ℕ × Bytes)

abbrev pub commands : List Entry → List (ℕ × Bytes)
commands [] = []
commands ((i, c) ∷ log) = c ∷ commands log

commands-append : (xs ys : List Entry) → commands (xs ++ ys) ≡ commands xs ++ commands ys
commands-append [] ys = refl
commands-append ((i, c) ∷ xs) ys = ap (λ (l : List (ℕ × Bytes)). c ∷ l) (commands-append xs ys)

elem-append :
    (ss : List Stage) (j : ℕ) (r : Bytes)
    → get_elem? (ss ++ reading ∷ []) j ≡ some (writing r)
    → get_elem? ss j ≡ some (writing r)
elem-append [] zero r e = cc
elem-append [] (suc j) r e = cc
elem-append (s ∷ ss) zero r e = e
elem-append (s ∷ ss) (suc j) r e = elem-append ss j r e

module _ (M : Merkle) (H : HashOrder) where
  handle_all-append :
      (n : Node M) (xs ys : List (ℕ × Bytes))
      → (handle_all M H n (xs ++ ys)).0 ≡ (handle_all M H (handle_all M H n xs).0 ys).0
  handle_all-append n [] ys = refl
  handle_all-append n ((now, command) ∷ xs) ys =
      handle_all-append (process_command M H n now command).node xs ys

module _ (M : Merkle) (H : HashOrder) (n : Node M) where
  -- The commands in the order in which their reads completed.
  abbrev pub log_of : {a h : ℕ} {l : Listener M} → Serves M H n a h l → List Entry
  log_of listening = []
  log_of (accepted l e s) = log_of s
  log_of (accept_failed l e s) = log_of s
  log_of (received l i now request e s) = log_of s ++ (i, (now, take 1024 request)) ∷ []
  log_of (read_failed l i now e s) = log_of s
  log_of (written l i response e s) = log_of s

  -- The node behind the commands of a log.
  abbrev pub after_log : List Entry → Node M
  after_log log = (handle_all M H n (commands log)).0

  -- The response to a command of the session in the log, given behind the commands before it.
  abbrev Answered : List Entry → ℕ → Bytes → Type 0
  Answered log i response =
      (before : List Entry) × (now : ℕ) × (command : Bytes) × (later : List Entry) × (log
        ≡ before ++ (i, (now, command)) ∷ later)
      × (response ≡ (process_command M H (after_log before) now command).response)

  Answered-append :
      (log : List Entry) (e : Entry) (i : ℕ) (response : Bytes)
      → Answered log i response
      → Answered (log ++ e ∷ []) i response
  Answered-append log e i response (before, now, command, later, p, q) = (
    before,
    now,
    command,
    later ++ e ∷ [],
    ap (λ (l : List Entry). l ++ e ∷ []) p
        ∙ append_assoc before ((i, (now, command)) ∷ later) (e ∷ []),
    q,
  )

  record IsLinear (l : Listener M) (log : List Entry) : Type 0 where
    node : l.node ≡ after_log log
    answered :
        (i : ℕ) (response : Bytes)
        → get_elem? l.sessions i ≡ some (writing response)
        → Answered log i response

  -- A session that ends, whatever the others do.
  ends-IsLinear :
      (l : Listener M) (log : List Entry) (i : ℕ)
      → IsLinear l log
      → IsLinear (record l { sessions = set_elem l.sessions i ended }) log
  ends-IsLinear l log i h = record {
    node = h.node;
    answered = λ j response e. elim (get_elem?-set_elem l.sessions i j ended (writing response) e) [
      | inl (p, q) ↦ absurd (cc)
      | inr e' ↦ h.answered j response e'
    ];
  }

  reads-IsLinear :
      (l : Listener M) (log : List Entry) (i now : ℕ) (bytes : Bytes)
      → IsLinear l log
      → IsLinear (on_read M H i now (some bytes) l) (log ++ (i, (now, take 1024 bytes)) ∷ [])
  unfolding on_read
  reads-IsLinear l log i now bytes h =
      let command = take 1024 bytes in
      let entry : Entry = (i, (now, command)) in
      let r = process_command M H l.node now command in
      record {
        node =
            ap (λ (k : Node M). (process_command M H k now command).node) h.node
            ∙ sym (handle_all-append M H n (commands log) ((now, command) ∷ []))
            ∙ ap (λ (c : List (ℕ × Bytes)). (handle_all M H n c).0)
                (sym (commands-append log (entry ∷ [])));
        answered = λ j response e.
            elim (get_elem?-set_elem l.sessions i j (writing r.response) (writing response) e) [
              | inl (p, q) ↦ (
                log,
                now,
                command,
                [],
                ap (λ (k : ℕ). log ++ (k, (now, command)) ∷ []) (sym p),
                (let same : response ≡ r.response = cc in same)
                    ∙ ap (λ (k : Node M). (process_command M H k now command).response) h.node,
              )
              | inr e' ↦ Answered-append log entry j response (h.answered j response e')
            ];
      }

  Serves-IsLinear : (a h : ℕ) (l : Listener M) (s : Serves M H n a h l) → IsLinear l (log_of s)
  unfolding on_accept on_read on_write
  Serves-IsLinear a h l listening = record { node = refl; answered = λ i response e. cc }
  Serves-IsLinear a h l (accepted {a = b} k e s) =
      let v = Serves-IsLinear b h k s in
      record {
        node = v.node;
        answered = λ i response e. v.answered i response (elem-append k.sessions i response e);
      }
  Serves-IsLinear a h l (accept_failed k e s) =
      let v = Serves-IsLinear a h k s in record { node = v.node; answered = v.answered }
  Serves-IsLinear a h l (received {h = g} k i now request e s) =
      reads-IsLinear k (log_of s) i now request (Serves-IsLinear a g k s)
  Serves-IsLinear a h l (read_failed k i now e s) =
      ends-IsLinear k (log_of s) i (Serves-IsLinear a h k s)
  Serves-IsLinear a h l (written k i response e s) =
      ends-IsLinear k (log_of s) i (Serves-IsLinear a h k s)

  after_log-registers :
      (log : List Entry)
      → NodupKeys n.shared.kv.store
      → view (after_log log).shared ≡ (answer_all (view n.shared) (commands log)).0
  after_log-registers log d = (handle_all-answers M H (commands log) n d).0

  -- However the sessions of a node interleave and end, whatever they wait for: the node holds what
  -- last-writer-wins registers hold that take the commands one after the other, in the order in which
  -- their reads completed, each cut at 1024 bytes. In the beginning the table holds no key twice.
  pub Serves-registers :
      (a h : ℕ) (l : Listener M) (s : Serves M H n a h l)
      → NodupKeys n.shared.kv.store
      → view l.node.shared ≡ (answer_all (view n.shared) (commands (log_of s))).0
  Serves-registers a h l s d =
      ap (λ (k : Node M). view k.shared) (Serves-IsLinear a h l s).node
      ∙ after_log-registers (log_of s) d

  -- Where a session writes a response, however the sessions of its node interleaved and ended: the
  -- response is the one to a command of its own, which last-writer-wins registers allow that have
  -- taken the commands before it one after the other, in the order in which their reads completed,
  -- each cut at 1024 bytes. In the beginning the table holds no key twice.
  pub Serves-linear :
      (a h : ℕ) (l : Listener M) (s : Serves M H n a h l) (i : ℕ) (response : Bytes)
      → NodupKeys n.shared.kv.store
      → get_elem? l.sessions i ≡ some (writing response)
      → (before : List Entry) × (now : ℕ) × (command : Bytes) × (later : List Entry) × (log_of s
          ≡ before ++ (i, (now, command)) ∷ later)
        × Allows
            (answer (answer_all (view n.shared) (commands before)).0 now (request command)).1
            response
  Serves-linear a h l s i response d e =
      let v = Serves-IsLinear a h l s in
      let (before, now, command, later, p, q) = v.answered i response e in
      let k = after_log before in
      let Given : Registers → Type 0 = λ r.
        Allows (answer r now (request command)).1 (process_command M H k now command).response in
      let Allowed : Bytes → Type 0 =
        Allows (answer (answer_all (view n.shared) (commands before)).0 now (request command)).1 in
      (
        before,
        now,
        command,
        later,
        p,
        subst Allowed (sym q) (
            subst Given (after_log-registers before d)
              (process_command-IsAnswer M H k now (handle_all-NodupKeys M H (commands before) n d)
                command).response),
      )
