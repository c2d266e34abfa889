-- ===== src/Realtime/Steps.antt =====
-- The broker as its users drive it: handleConnect makes a connection and closes it once, after its
-- readPump, which subscribes and unsubscribes, has returned; writePump takes events.
use maubase.Prelude.{
  ℕ, ◌≤◌, ◌≡◌, sym, ap, ◌∙◌, Text, Bool, true, false, Option, none, some, List, ◌∷◌, length, eqb,
  if◌then◌else◌, arith, Bool-cases, inl, inr, All-map, subst, eq_of_some,
}
use maubase.Realtime.{
  Event, capacity, Conn, Broker, create, set_heap, new_conn, subscribe, unsubscribe, close,
  publish_local,
}
use maubase.Realtime.Safety.{
  Heap, Live, IsSound, IsGood-heap, create-IsSound, new_conn-IsSound, subscribe-IsSound,
}
use maubase.Realtime.Closing.{unsubscribe-IsSound, close-IsSound}
use maubase.Realtime.Delivery.{
  delivered, in_line, delivered-Live, delivered_bounded, delivered_fresh, publish_local_lem,
}

-- A heap that gives each connection's event at most once.
Delivered-Live :
    (ev : Event) (p : ℕ → Bool) (h h' : Heap)
    → ((d : ℕ) → h' d ≡ (if p d then delivered ev (h d) else h d))
    → (c : ℕ) → Live h c
    → Live h' c
Delivered-Live ev p h h' same c (v, e, open_) = elim (Bool-cases (p c)) [
  | inl t ↦ let (v', e', open') = delivered-Live ev (h c) v e open_ in (v', same c ∙ rw t e', open')
  | inr f ↦ (v, same c ∙ rw f e, open_)
]

publish_local-IsSound :
    (b b' : Broker) (ev : Event) (owner_id : Text)
    → publish_local b ev owner_id ≡ some b'
    → IsSound b
    → IsSound b'
publish_local-IsSound b b' ev owner_id done s =
    let (b'', e, subs, next, heap) = publish_local_lem b ev owner_id s in
    subst IsSound (eq_of_some b'' b' (sym e ∙ done)) (record {
      map = rw subs s.map;
      sets = rw subs (
          All-map _ _
            (λ x.
              IsGood-heap b.heap b''.heap
                (Delivered-Live ev (in_line b ev owner_id) b.heap b''.heap heap) x.1)
            b.subs s.sets);
      bounded = λ d v g.
          bounded ev (in_line b ev owner_id d) (b.heap d) (s.bounded d) v (sym (heap d) ∙ g);
      fresh =
          λ d h. heap d ∙ fresh ev (in_line b ev owner_id d) (b.heap d) (s.fresh d (rw next at h));
    })
  where
    bounded :
        (ev : Event) (p : Bool) (o : Option Conn)
        → ((v : Conn) → o ≡ some v → length v.events ≤ capacity)
        → (v : Conn) → (if p then delivered ev o else o) ≡ some v
        → length v.events ≤ capacity
    bounded ev true o k = delivered_bounded ev o k
    bounded ev false o k = k

    fresh :
        (ev : Event) (p : Bool) (o : Option Conn)
        → o ≡ none
        → (if p then delivered ev o else o) ≡ none
    fresh ev true o e = delivered_fresh ev o e
    fresh ev false o e = e

-- writePump's receive: the oldest event leaves the channel.
abbrev pub received : Broker → ℕ → Conn → List Event → Broker
received b c v rest = record b { heap = set_heap c (record v { events = rest }) b.heap }

received-IsSound :
    (b : Broker) (c : ℕ) (v : Conn) (ev : Event) (rest : List Event)
    → b.heap c ≡ some v
    → v.events ≡ ev ∷ rest
    → IsSound b
    → IsSound (received b c v rest)
received-IsSound b c v ev rest e q s = record {
  map = s.map;
  sets = All-map _ _ (λ x. IsGood-heap b.heap (received b c v rest).heap live x.1) b.subs s.sets;
  bounded = λ d w g. elim (Bool-cases (eqb c d)) [
    | inl t ↦
        let same : record v { events = rest } ≡ w = eq_of_some _ w (rw t at g) in
        rw (← same) (omega (arith, s.bounded c v e, ap length q))
    | inr f ↦ s.bounded d w (rw f at g)
  ];
  fresh = λ d h. elim (Bool-cases (eqb c d)) [
    | inl t ↦ let same : c ≡ d = ground arith in absurd (cc (e, s.fresh d h, ap b.heap same))
    | inr f ↦ rw f (s.fresh d h)
  ];
}
  where
    live : (d : ℕ) → Live b.heap d → Live (received b c v rest).heap d
    live d (w, g, open_) = elim (Bool-cases (eqb c d)) [
      | inl t ↦
          let same : c ≡ d = ground arith in
          let twin : v ≡ w = eq_of_some v w (sym e ∙ ap b.heap same ∙ g) in
          (record v { events = rest }, rw t, ap (λ (x : Conn). x.is_closed) twin ∙ open_)
      | inr f ↦ (w, rw f g, open_)
    ]

pub data Step : Broker → Broker → Type 0 where
  opens : (b : Broker) (subject : Text) → Step b (new_conn b subject).0
  subscribes :
      (b : Broker) (c : ℕ) (collection : Text) → Live b.heap c → Step b (subscribe b c collection)
  unsubscribes : (b : Broker) (c : ℕ) (collection : Text) → Step b (unsubscribe b c collection)
  closes : (b : Broker) (c : ℕ) → Live b.heap c → Step b (close b c)
  publishes :
      (b b' : Broker) (ev : Event) (owner_id : Text)
      → publish_local b ev owner_id ≡ some b'
      → Step b b'
  receives :
      (b : Broker) (c : ℕ) (v : Conn) (ev : Event) (rest : List Event)
      → b.heap c ≡ some v
      → v.events ≡ ev ∷ rest
      → Step b (received b c v rest)

pub data Reach : Broker → Type 0 where
  starts : Reach create
  steps : {b b' : Broker} → Reach b → Step b b' → Reach b'

Step-IsSound : {b b' : Broker} → Step b b' → IsSound b → IsSound b'
Step-IsSound (opens b subject) s = new_conn-IsSound b subject s
Step-IsSound (subscribes b c collection live) s = subscribe-IsSound b c collection live s
Step-IsSound (unsubscribes b c collection) s = unsubscribe-IsSound b c collection s
Step-IsSound (closes b c live) s = close-IsSound b c s
Step-IsSound (publishes b b' ev owner_id e) s = publish_local-IsSound b b' ev owner_id e s
Step-IsSound (receives b c v ev rest e q) s = received-IsSound b c v ev rest e q s

-- In every state that the broker reaches, with publishing in one step, each subscribed connection
-- is open and stands in a set once, no collection has an empty entry, no channel holds more than
-- 16 events, and no number from `next` on is in use.
pub Reach-IsSound : {b : Broker} → Reach b → IsSound b
Reach-IsSound starts = create-IsSound
Reach-IsSound (steps r st) = Step-IsSound st (Reach-IsSound r)
