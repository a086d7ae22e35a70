-- ===== src/Cluster/Sources.antt =====
-- Where updates come from: those that entered from outside, and the messages that tell of them.
use mathlib.Core.Path.{subst}
use mathlib.Core.List.{Memᴰ, append_assoc}
use distributed_kvstore.Prelude.{ℕ, ◌≡◌, refl, sym, List, [], ◌∷◌, ◌++◌, Bytes, All, map, take}
use distributed_kvstore.Membership.{Memᴰ-left, Memᴰ-middle, All-map}
use distributed_kvstore.Dict.{HashOrder}
use distributed_kvstore.Merkle.{Merkle}
use distributed_kvstore.Store.{ValueWithTimestamp}
use distributed_kvstore.Store.Updates.{Update, puts, removes}
use distributed_kvstore.Node.Contract.{changes, request}
use distributed_kvstore.Node.Messages.{Tells, TellsOf, IsWhole, retimed}
use distributed_kvstore.Cluster.{
  Thread, start_thread, Cluster, Reach, started, swapped, commanded, delivered, failed, gave_up,
  synchronised, slept,
}
use distributed_kvstore.Cluster.History.{stored}

-- A write of the key and the value is among the sources.
abbrev pub HasSource : List Update → Update → Type 0
HasSource ss (puts key v) = (w : ValueWithTimestamp) × (w.value ≡ v.value) × Memᴰ (puts key w) ss
HasSource ss (removes key timestamp) = Unit

Memᴰ-HasSource : (ss : List Update) (u : Update) → Memᴰ u ss → HasSource ss u
Memᴰ-HasSource ss (puts key v) m = (v, refl, m)
Memᴰ-HasSource ss (removes key timestamp) m = tt

pub later-HasSource : (ss vs : List Update) (u : Update) → HasSource ss u → HasSource (ss ++ vs) u
later-HasSource ss vs (puts key v) (w, e, m) = (w, e, Memᴰ-left (puts key w) ss vs m)
later-HasSource ss vs (removes key timestamp) h = tt

pub new-HasSource : (ss vs : List Update) → All (HasSource (ss ++ vs)) vs
new-HasSource ss [] = tt
new-HasSource ss (v ∷ vs) = (
  Memᴰ-HasSource (ss ++ v ∷ vs) v (Memᴰ-middle v ss vs),
  subst (λ (l : List Update). All (HasSource l) vs) (append_assoc ss (v ∷ []) vs)
      (new-HasSource (ss ++ v ∷ []) vs),
)

module _ (M : Merkle) where
  -- The thread has the message of a whole update of these.
  abbrev pub Carries : List Update → Thread → Type 0
  Carries ss t = (u : Update) × Memᴰ u ss × IsWhole M u × Tells M u t.message

  pub retimed-HasSource :
      (ss : List Update) (now : ℕ) (u : Update) → Memᴰ u ss → HasSource ss (retimed M now u)
  retimed-HasSource ss now (puts key v) m = (v, refl, m)
  retimed-HasSource ss now (removes key timestamp) m = tt

  pub later-Carries :
      (ss vs : List Update) (ts : List Thread) → All (Carries ss) ts → All (Carries (ss ++ vs)) ts
  later-Carries ss vs ts =
      All-map (Carries ss) (Carries (ss ++ vs)) ts
        (λ t (u, m, w, h). (u, Memᴰ-left u ss vs m, w, h))

  pub new-Carries :
      (ss vs : List Update) (messages : List Bytes)
      → All (IsWhole M) vs
      → All (TellsOf M vs) messages
      → All (Carries (ss ++ vs)) (map start_thread messages)
  new-Carries ss vs [] w h = tt
  new-Carries ss vs (message ∷ messages) w ((u, e, h), hs) = (
    (
      u,
      subst (λ (l : List Update). Memᴰ u (ss ++ l)) (sym e) (Memᴰ-middle u ss []),
      (subst (All (IsWhole M)) e w).0,
      h,
    ),
    new-Carries ss vs messages w hs,
  )

module _ (M : Merkle) (H : HashOrder) where
  -- The updates that came from outside: of commands at either node, and of values that a manager
  -- took over. The deliveries of messages are not among them.
  abbrev pub sources : {n : ℕ} {c : Cluster M} → Reach M H n c → List Update
  sources started = []
  sources (swapped a b r) = sources r
  sources (commanded c now command r) = sources r ++ changes now (request (take 1024 command))
  sources (delivered a b now before after t e left r) = sources r
  sources (failed a b before after t e left r) = sources r
  sources (gave_up a b before after t e spent r) = sources r
  sources (synchronised a b W w manager e r) = sources r ++ stored a.phase (W.clock w)
  sources (slept a b result e r) = sources r

  -- Every SET and DEL from outside has its words, and its message is not cut before they end.
  abbrev pub IsWorded : {n : ℕ} {c : Cluster M} → Reach M H n c → Type 0
  IsWorded started = Unit
  IsWorded (swapped a b r) = IsWorded r
  IsWorded (commanded c now command r) =
      All (IsWhole M) (changes now (request (take 1024 command))) × IsWorded r
  IsWorded (delivered a b now before after t e left r) = IsWorded r
  IsWorded (failed a b before after t e left r) = IsWorded r
  IsWorded (gave_up a b before after t e spent r) = IsWorded r
  IsWorded (synchronised a b W w manager e r) = IsWorded r
  IsWorded (slept a b result e r) = IsWorded r
