-- ===== src/Realtime/Delivery.antt =====
-- What publishing delivers, and to whom.
use maubase.Prelude.{
  ℕ, ◌≤◌, ◌≡◌, refl, sym, ap, ◌∙◌, Text, Bool, false, ◌&&◌, ◌||◌, Option, none, some, List, [], ◌∷◌,
  ◌++◌, length, ltb, eqb, if◌then◌else◌, arith, Bool-cases, inl, inr, All, All-map, eq_of_some,
  length-append, select, lookup,
}
use maubase.Realtime.{
  Event, capacity, Conn, Broker, member, set_of, may_see, offer, sent, send_all, publish_local,
}
use maubase.Realtime.Safety.{Heap, Live, Distinct, IsSound, set_of-IsGood}

-- A connection after one event is offered to it: at most once, and dropped where 16 wait.
abbrev pub delivered : Event → Option Conn → Option Conn
delivered ev none = none
delivered ev (some v) =
    if ltb (length v.events) capacity
    then some (record v { events = v.events ++ ev ∷ [] })
    else some v

-- Who is in line for an event: subscribed to its collection and allowed to see it.
abbrev pub in_line : Broker → Event → Text → ℕ → Bool
in_line b ev owner_id c =
    member c (set_of (lookup ev.collection b.subs)) && may_see owner_id (b.heap c)

pub member-select :
    (c : ℕ) (p : ℕ → Bool) (ds : List ℕ) → member c (select p ds) ≡ (member c ds && p c)
unfolding member select
member-select c p [] = refl
member-select c p (d ∷ ds) = elim (Bool-cases (eqb c d)) [
  | inl e ↦
      let same : c ≡ d = ground arith in
      rw (← same) (elim (Bool-cases (p c)) [
        | inl t ↦ ground (arith, t, member-select c p ds)
        | inr f ↦ ground (arith, f, member-select c p ds)
      ])
  | inr e ↦ ground (arith, e, member-select c p ds)
]

select-Distinct : (p : ℕ → Bool) (ds : List ℕ) → Distinct ds → Distinct (select p ds)
unfolding select
select-Distinct p [] h = tt
select-Distinct p (d ∷ ds) h = elim (Bool-cases (p d)) [
  | inl e ↦ rw e (rw (member-select d p ds, h.0), select-Distinct p ds h.1)
  | inr e ↦ rw e (select-Distinct p ds h.1)
]

select-Live : (h : Heap) (p : ℕ → Bool) (ds : List ℕ) → All (Live h) ds → All (Live h) (select p ds)
unfolding select
select-Live h p [] l = tt
select-Live h p (d ∷ ds) l = elim (Bool-cases (p d)) [
  | inl e ↦ rw e (l.0, select-Live h p ds l.1)
  | inr e ↦ rw e (select-Live h p ds l.1)
]

-- The broker after sending to one open connection.
abbrev after_one : Event → ℕ → Broker → Broker
after_one ev c b = record b { heap = λ d. if eqb c d then delivered ev (b.heap c) else b.heap d }

offer_open :
    (ev : Event) (v : Conn) → v.is_closed ≡ false → offer ev (some v) ≡ some (delivered ev (some v))
unfolding offer
offer_open ev v e = ground arith

send_one :
    (ev : Event) (c : ℕ) (b : Broker)
    → Live b.heap c
    → sent b c (offer ev (b.heap c)) ≡ some (after_one ev c b)
send_one ev c b (v, e, open_) = rw (e, offer_open ev v open_)

pub delivered-Live :
    (ev : Event) (o : Option Conn) (v : Conn)
    → o ≡ some v
    → v.is_closed ≡ false
    → (v' : Conn) × (delivered ev o ≡ some v') × (v'.is_closed ≡ false)
delivered-Live ev o v e open_ = elim (Bool-cases (ltb (length v.events) capacity)) [
  | inl t ↦ (record v { events = v.events ++ ev ∷ [] }, rw (e, t), open_)
  | inr f ↦ (v, rw (e, f), open_)
]

after_one-Live :
    (ev : Event) (c : ℕ) (b : Broker) (d : ℕ) → Live b.heap d → Live (after_one ev c b).heap d
after_one-Live ev c b d (v, e, open_) = elim (Bool-cases (eqb c d)) [
  | inl t ↦
      let same : c ≡ d = ground arith in
      let (v', e', open') = delivered-Live ev (b.heap c) v (ap b.heap same ∙ e) open_ in
      (v', rw t e', open')
  | inr f ↦ (v, rw f e, open_)
]

-- A run of sends to distinct open connections does not panic, and offers the event once to each.
send_all_lem :
    (ev : Event) (cs : List ℕ) (b : Broker)
    → Distinct cs
    → All (Live b.heap) cs
    → (b' : Broker) × (send_all ev cs b ≡ some b')
      × (b'.subs ≡ b.subs)
      × (b'.next ≡ b.next)
      × ((d : ℕ) → b'.heap d ≡ (if member d cs then delivered ev (b.heap d) else b.heap d))
unfolding send_all member
send_all_lem ev [] b distinct live = (b, refl, refl, refl, λ d. refl)
send_all_lem ev (c ∷ cs) b distinct live =
    let rest =
      send_all_lem ev cs (after_one ev c b) distinct.1
        (All-map (Live b.heap) _ (after_one-Live ev c b) cs live.1) in
    let (b', e, subs, next, heap) = rest in
    (b', rw (send_one ev c b live.0, send_all) e, subs, next, λ d. heap d ∙ here d)
  where
    here :
        (d : ℕ)
        → (if member d cs
            then delivered ev ((after_one ev c b).heap d)
            else (after_one ev c b).heap d)
          ≡ (if eqb d c || member d cs then delivered ev (b.heap d) else b.heap d)
    here d = elim (Bool-cases (eqb c d)) [
      | inl t ↦
          let same : c ≡ d = ground arith in
          let alone : member d cs ≡ false = ap (λ x. member x cs) (sym same) ∙ distinct.0 in
          ground (arith, t, alone, ap (λ x. delivered ev (b.heap x)) same)
      | inr f ↦ let other : eqb d c ≡ false = ground arith in rw (f, other)
    ]

-- In a sound broker an event reaches, at most once, exactly the connections that subscribe to its
-- collection and may see it, where their channel has room; no other connection changes, and
-- nothing panics.
pub publish_local_lem :
    (b : Broker) (ev : Event) (owner_id : Text)
    → IsSound b
    → (b' : Broker) × (publish_local b ev owner_id ≡ some b')
      × (b'.subs ≡ b.subs)
      × (b'.next ≡ b.next)
      × ((d : ℕ)
          → b'.heap d ≡ (if in_line b ev owner_id d then delivered ev (b.heap d) else b.heap d))
unfolding publish_local
publish_local_lem b ev owner_id s =
    let (distinct, live) = set_of-IsGood b ev.collection s in
    let p = λ (c : ℕ). may_see owner_id (b.heap c) in
    let ds = set_of (lookup ev.collection b.subs) in
    let (b', e, subs, next, heap) =
      send_all_lem ev (select p ds) b (select-Distinct p ds distinct)
        (select-Live b.heap p ds live) in
    (b', e, subs, next, λ d. heap d ∙ rw (member-select d p ds))

pub delivered_bounded :
    (ev : Event) (o : Option Conn)
    → ((v : Conn) → o ≡ some v → length v.events ≤ capacity)
    → (v : Conn) → delivered ev o ≡ some v
    → length v.events ≤ capacity
delivered_bounded ev none k v e = absurd (cc)
delivered_bounded ev (some w) k v e = elim (Bool-cases (ltb (length w.events) capacity)) [
  | inl t ↦
      let same : record w { events = w.events ++ ev ∷ [] } ≡ v = eq_of_some _ v (rw t at e) in
      rw (← same) (ground (arith, t, length-append w.events (ev ∷ [])))
  | inr f ↦ let same : w ≡ v = eq_of_some w v (rw f at e) in rw (← same) (k w refl)
]

pub delivered_fresh : (ev : Event) (o : Option Conn) → o ≡ none → delivered ev o ≡ none
delivered_fresh ev o e = rw e
