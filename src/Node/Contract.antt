-- ===== src/Node/Contract.antt =====
-- What a node promises its clients: a server of last-writer-wins registers, which reads a command as a
-- list of words.
use distributed_kvstore.Prelude.{
  ℕ, ◌≡◌, Option, none, some, List, [], ◌∷◌, Bytes, codes, if◌then◌else◌,
}
use distributed_kvstore.Text.{◌==◌}
use distributed_kvstore.Text.Words.Split.{words, first_word, other_words}
use distributed_kvstore.Store.{ValueWithTimestamp}
use distributed_kvstore.Store.Updates.{Registers, Update, puts, removes, register_step}

pub data Request : Type 0 where
  reads : (key : Bytes) → Request
  updates : (ℕ → Update) → Request
  -- The listings and the Merkle tree depend on the order of the table.
  inspects : Request
  unknown : Request

abbrev pub request_of : Bytes → Bytes → Bytes → Request
request_of action key value =
    if action == codes "GET"
    then reads key
    else if action == codes "SET"
    then updates (λ now. puts key (record { value = value; timestamp = now }))
    else if action == codes "DEL"
    then updates (λ now. removes key now)
    else if action == codes "GET_ALL"
    then inspects
    else if action == codes "GET_MERKLE_ROOT"
    then inspects
    else if action == codes "GET_PATHS"
    then inspects
    else unknown

abbrev pub request_of_words : List Bytes → Request
request_of_words ws =
    let operands = other_words ws in
    request_of (first_word ws) (first_word operands) (first_word (other_words operands))

-- A command of the peer is marked by its first word, and read like a client's.
abbrev pub request : Bytes → Request
request command =
    let ws = words command in
    if first_word ws == codes "PROPAGATE"
    then request_of_words (other_words ws)
    else request_of_words ws

abbrev pub value_of : Option ValueWithTimestamp → Bytes
value_of none = []
value_of (some v) = v.value

-- The registers after a request, and the response where the registers decide it.
abbrev pub answer : Registers → ℕ → Request → Registers × Option Bytes
answer r now (reads key) = (r, some (value_of (r key)))
answer r now (updates u) = (register_step r (u now), some (codes "OK"))
answer r now inspects = (r, none)
answer r now unknown = (r, some (codes "Invalid command"))

-- Commands with the times at which they are handled.
abbrev pub answer_all : Registers → List (ℕ × Bytes) → Registers × List (Option Bytes)
answer_all r [] = (r, [])
answer_all r ((now, command) ∷ commands) =
    let (r', response) = answer r now (request command) in
    let (r'', responses) = answer_all r' commands in (r'', response ∷ responses)

-- The responses that a node may give.
abbrev pub Allows : Option Bytes → Bytes → Type 0
Allows none response = Unit
Allows (some expected) response = expected ≡ response

abbrev pub AllowsAll : List (Option Bytes) → List Bytes → Type 0
AllowsAll [] [] = Unit
AllowsAll [] (b ∷ bs) = ⊥
AllowsAll (a ∷ allowed) [] = ⊥
AllowsAll (a ∷ allowed) (b ∷ bs) = Allows a b × AllowsAll allowed bs

-- What a request does to the registers.
abbrev pub changes : ℕ → Request → List Update
changes now (updates u) = u now ∷ []
changes now (reads key) = []
changes now inspects = []
changes now unknown = []
