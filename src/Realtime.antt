-- ===== src/Realtime.antt =====
-- internal/realtime/broker.go: connections, subscriptions and the delivery of events. A Conn is a
-- pointer in the source; here it is the number under which the broker's heap holds it.
pub mod Safety
pub mod Closing
pub mod Delivery
pub mod Steps
pub mod Race
pub mod Examples
use maubase.Prelude.{
  ℕ, suc, ◌+◌, Text, codes, ◌==◌, Bool, true, false, not, ◌&&◌, ◌||◌, Option, none, some, List, [],
  ◌∷◌, ◌++◌, map, length, ltb, eqb, if◌then◌else◌, select, Assoc, lookup, put, remove,
}

pub record Event : Type 0 where
  pub kind : Text
  pub collection : Text
  -- The row as JSON, absent on "deleted", and the id, which only "deleted" has.
  pub row : Option Text
  pub id : Text

-- The buffer of the channel: make(chan Event, 16).
abbrev pub capacity : ℕ
capacity = 16

pub record Conn : Type 0 where
  pub subject : Text
  -- What the channel holds, oldest first, and whether it is closed.
  pub events : List Event
  pub is_closed : Bool

-- `heap` gives each connection made so far; `next` is a number not in use.
pub record Broker : Type 0 where
  pub subs : Assoc (List ℕ)
  pub heap : ℕ → Option Conn
  pub next : ℕ

-- NewBroker
unfoldable pub create : Broker
create = record { subs = []; heap = λ c. none; next = 0 }

abbrev pub set_heap : ℕ → Conn → (ℕ → Option Conn) → ℕ → Option Conn
set_heap c v h d = if eqb c d then some v else h d

-- NewConn
unfoldable pub new_conn : Broker → Text → Broker × ℕ
new_conn b subject = (
  record b {
    heap = set_heap b.next (record { subject = subject; events = []; is_closed = false }) b.heap;
    next = suc b.next;
  },
  b.next,
)

unfoldable pub member : ℕ → List ℕ → Bool
member c [] = false
member c (d ∷ ds) = eqb c d || member c ds

-- A set of connections: adding one that is there changes nothing.
abbrev pub add : ℕ → List ℕ → List ℕ
add c ds = if member c ds then ds else c ∷ ds

unfoldable pub discard : ℕ → List ℕ → List ℕ
discard c [] = []
discard c (d ∷ ds) = let rest = discard c ds in if eqb c d then rest else d ∷ rest

abbrev pub set_of : Option (List ℕ) → List ℕ
set_of none = []
set_of (some ds) = ds

unfoldable pub subscribe : Broker → ℕ → Text → Broker
unfolding member
subscribe b c collection = record b {
  subs = put collection (add c (set_of (lookup collection b.subs))) b.subs;
}

-- A collection whose set is empty loses its entry.
abbrev pub store : Text → List ℕ → Assoc (List ℕ) → Assoc (List ℕ)
store collection [] subs = remove collection subs
store collection (d ∷ ds) subs = put collection (d ∷ ds) subs

abbrev pub without : Assoc (List ℕ) → Text → ℕ → Option (List ℕ) → Assoc (List ℕ)
without subs collection c none = subs
without subs collection c (some ds) = store collection (discard c ds) subs

unfoldable pub unsubscribe : Broker → ℕ → Text → Broker
unfolding discard
unsubscribe b c collection = record b {
  subs = without b.subs collection c (lookup collection b.subs);
}

-- The loop of Close.
abbrev pub keep_entry : Text → List ℕ → Assoc (List ℕ) → Assoc (List ℕ)
keep_entry collection [] rest = rest
keep_entry collection (d ∷ ds) rest = (collection, d ∷ ds) ∷ rest

unfoldable pub discard_all : ℕ → Assoc (List ℕ) → Assoc (List ℕ)
unfolding discard
discard_all c [] = []
discard_all c ((collection, ds) ∷ rest) = keep_entry collection (discard c ds) (discard_all c rest)

abbrev pub shut : Option Conn → Option Conn
shut none = none
shut (some v) = some (record v { is_closed = true })

unfoldable pub close : Broker → ℕ → Broker
unfolding discard_all
close b c = record b {
  subs = discard_all c b.subs;
  heap = λ d. if eqb c d then shut (b.heap d) else b.heap d;
}

-- if ownerID == "" || c.Subject == ownerID
abbrev pub may_see : Text → Option Conn → Bool
may_see owner_id none = false
may_see owner_id (some v) = owner_id == [] || v.subject == owner_id

-- publishLocal, first half, under the lock: the connections that the event is for.
unfoldable pub recipients : Broker → Event → Text → List ℕ
recipients b ev owner_id =
    select (λ c. may_see owner_id (b.heap c)) (set_of (lookup ev.collection b.subs))

-- One `select { case c.events <- ev: default: }`: a full channel drops the event, and a closed one
-- panics, also inside a select.
unfoldable pub offer : Event → Option Conn → Option (Option Conn)
offer ev none = some none
offer ev (some v) =
    if v.is_closed
    then none
    else if ltb (length v.events) capacity
    then some (some (record v { events = v.events ++ ev ∷ [] }))
    else some (some v)

-- publishLocal, second half, without the lock. No answer is a panic.
abbrev pub sent : Broker → ℕ → Option (Option Conn) → Option Broker
sent b c none = none
sent b c (some o) = some (record b { heap = λ d. if eqb c d then o else b.heap d })

unfoldable pub send_all : Event → List ℕ → Broker → Option Broker
unfolding offer
send_all ev [] b = some b
send_all ev (c ∷ cs) b = elim (sent b c (offer ev (b.heap c))) [
  | none ↦ none
  | some b' ↦ send_all ev cs b'
]

-- publishLocal where nothing comes between its halves.
unfoldable pub publish_local : Broker → Event → Text → Option Broker
unfolding recipients send_all
publish_local b ev owner_id = send_all ev (recipients b ev owner_id) b
