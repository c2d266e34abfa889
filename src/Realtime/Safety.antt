-- ===== src/Realtime/Safety.antt =====
-- The invariant of the broker, and that every operation keeps it.
use maubase.Prelude.{
  ℕ, ◌≤◌, ◌≡◌, refl, ◌∙◌, Text, Bool, true, false, Option, none, some, List, [], ◌∷◌, length, eqb,
  arith, Bool-cases, Option-cases, inl, inr, All, All-map, lookup, IsMap, put-IsMap, All-lookup,
  All-put,
}
use maubase.Realtime.{
  capacity, Conn, Broker, create, new_conn, member, add, discard, set_of, subscribe,
}

abbrev pub Heap : Type 0
Heap = ℕ → Option Conn

-- A connection whose channel is open.
abbrev pub Live : Heap → ℕ → Type 0
Live h c = (v : Conn) × (h c ≡ some v) × (v.is_closed ≡ false)

abbrev pub Distinct : List ℕ → Type 0
Distinct [] = Unit
Distinct (d ∷ ds) = (member d ds ≡ false) × Distinct ds

abbrev filled : List ℕ → Bool
filled [] = false
filled (d ∷ ds) = true

-- A collection's set: no connection twice, all of them open, and at least one.
pub record IsGood (h : Heap) (ds : List ℕ) : Type 0 where
  pub distinct : Distinct ds
  pub live : All (Live h) ds
  pub inhabited : filled ds ≡ true

pub record IsSound (b : Broker) : Type 0 where
  pub map : IsMap b.subs
  pub sets : All (λ e. IsGood b.heap e.1) b.subs
  pub bounded : (d : ℕ) (v : Conn) → b.heap d ≡ some v → length v.events ≤ capacity
  pub fresh : (d : ℕ) → b.next ≤ d → b.heap d ≡ none

pub create-IsSound : IsSound create
unfolding create
create-IsSound = record { map = tt; sets = tt; bounded = λ d v e. absurd (cc); fresh = λ d h. refl }

-- A heap in which every open connection is still open.
pub IsGood-heap :
    (h h' : Heap) → ((c : ℕ) → Live h c → Live h' c) → (ds : List ℕ) → IsGood h ds → IsGood h' ds
IsGood-heap h h' keep ds g = record {
  distinct = g.distinct;
  live = All-map (Live h) (Live h') keep ds g.live;
  inhabited = g.inhabited;
}

new_conn-Live :
    (b : Broker) (subject : Text)
    → IsSound b
    → (c : ℕ) → Live b.heap c
    → Live (new_conn b subject).0.heap c
unfolding new_conn
new_conn-Live b subject s c (v, e, open_) = elim (Bool-cases (eqb b.next c)) [
  | inl t ↦ absurd (cc (e, s.fresh c (ground arith)))
  | inr f ↦ (v, rw f e, open_)
]

new_conn-bounded :
    (b : Broker) (subject : Text) (d : ℕ) (v : Conn)
    → (b.heap d ≡ some v → length v.events ≤ capacity)
    → (new_conn b subject).0.heap d ≡ some v
    → length v.events ≤ capacity
unfolding new_conn
new_conn-bounded b subject d v old e = ground (arith, old)

new_conn-fresh :
    (b : Broker) (subject : Text) (d : ℕ)
    → (b.next ≤ d → b.heap d ≡ none)
    → (new_conn b subject).0.next ≤ d
    → (new_conn b subject).0.heap d ≡ none
unfolding new_conn
new_conn-fresh b subject d old h = ground (arith, old)

pub new_conn-IsSound : (b : Broker) (subject : Text) → IsSound b → IsSound (new_conn b subject).0
new_conn-IsSound b subject s = record {
  map = unfold new_conn in s.map;
  sets =
      unfold new_conn in
      All-map _ _
        (λ e. IsGood-heap b.heap (new_conn b subject).0.heap (new_conn-Live b subject s) e.1) b.subs
        s.sets;
  bounded = λ d v e. new_conn-bounded b subject d v (s.bounded d v) e;
  fresh = λ d h. new_conn-fresh b subject d (s.fresh d) h;
}

-- The set of a collection, before it changes.
pub set_of-IsGood :
    (b : Broker) (collection : Text)
    → IsSound b
    → Distinct (set_of (lookup collection b.subs))
      × All (Live b.heap) (set_of (lookup collection b.subs))
set_of-IsGood b collection s = elim (Option-cases (lookup collection b.subs)) [
  | inl e ↦ rw e (tt, tt)
  | inr (ds, e) ↦
      let g = All-lookup (IsGood b.heap) collection b.subs ds s.sets e in rw e (g.distinct, g.live)
]

add-IsGood :
    (h : Heap) (c : ℕ) (ds : List ℕ)
    → Live h c
    → Distinct ds × All (Live h) ds
    → IsGood h (add c ds)
unfolding member
add-IsGood h c ds new (distinct, live) = elim (Bool-cases (member c ds)) [
  | inl e ↦ rw e (record { distinct = distinct; live = live; inhabited = member_filled c ds e })
  | inr e ↦ rw e (record { distinct = (e, distinct); live = (new, live); inhabited = refl })
]
  where
    member_filled : (c : ℕ) (ds : List ℕ) → member c ds ≡ true → filled ds ≡ true
    member_filled c [] e = cc e
    member_filled c (d ∷ ds) e = refl

pub subscribe-IsSound :
    (b : Broker) (c : ℕ) (collection : Text)
    → Live b.heap c
    → IsSound b
    → IsSound (subscribe b c collection)
unfolding subscribe
subscribe-IsSound b c collection new s = record {
  map = put-IsMap collection (add c (set_of (lookup collection b.subs))) b.subs s.map;
  sets =
      All-put (IsGood b.heap) collection (add c (set_of (lookup collection b.subs))) b.subs
        (add-IsGood b.heap c (set_of (lookup collection b.subs)) new (set_of-IsGood b collection s))
        s.sets;
  bounded = s.bounded;
  fresh = s.fresh;
}

discard-member : (c d : ℕ) (ds : List ℕ) → member d ds ≡ false → member d (discard c ds) ≡ false
unfolding discard member
discard-member c d [] h = refl
discard-member c d (x ∷ ds) h = ground (arith, discard-member c d ds)

pub discard-Distinct : (c : ℕ) (ds : List ℕ) → Distinct ds → Distinct (discard c ds)
unfolding discard
discard-Distinct c [] h = tt
discard-Distinct c (d ∷ ds) h = elim (Bool-cases (eqb c d)) [
  | inl e ↦ rw e (discard-Distinct c ds h.1)
  | inr e ↦ rw e (discard-member c d ds h.0, discard-Distinct c ds h.1)
]

-- What is left of a set is open in every heap that differs at the connection removed.
pub discard-Live :
    (h h' : Heap) (c : ℕ)
    → ((d : ℕ) → eqb c d ≡ false → h' d ≡ h d)
    → (ds : List ℕ) → All (Live h) ds
    → All (Live h') (discard c ds)
unfolding discard
discard-Live h h' c same [] l = tt
discard-Live h h' c same (d ∷ ds) l = elim (Bool-cases (eqb c d)) [
  | inl e ↦ rw e (discard-Live h h' c same ds l.1)
  | inr e ↦ rw e ((l.0.0, same d e ∙ l.0.1, l.0.2), discard-Live h h' c same ds l.1)
]
