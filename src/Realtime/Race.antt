-- ===== src/Realtime/Race.antt =====
-- publishLocal gives up the lock between choosing the recipients and sending to them. What another
-- goroutine does in between decides whether a send panics.
use maubase.Prelude.{
  ℕ, ◌≡◌, refl, sym, ap, ◌∙◌, Text, Bool, true, false, ◌&&◌, Option, none, some, List, [], ◌∷◌, eqb,
  if◌then◌else◌, arith, Bool-cases, Option-cases, inl, inr, lookup,
}
use maubase.Realtime.{
  Event, Conn, Broker, close, member, set_of, may_see, recipients, offer, send_all,
}
use maubase.Realtime.Delivery.{in_line, member-select}

offer-closed :
    (ev : Event) (o : Option Conn) (v : Conn) → o ≡ some v → v.is_closed ≡ true → offer ev o ≡ none
unfolding offer
offer-closed ev o v e closed = rw (e, closed)

-- A run of sends that comes to a closed channel panics.
send_all_closed :
    (ev : Event) (c : ℕ) (v : Conn) (cs : List ℕ) (b : Broker)
    → b.heap c ≡ some v
    → v.is_closed ≡ true
    → member c cs ≡ true
    → send_all ev cs b ≡ none
unfolding send_all member
send_all_closed ev c v [] b e closed m = absurd (cc)
send_all_closed ev c v (d ∷ cs) b e closed m = elim (Bool-cases (eqb c d)) [
  | inl t ↦
      let same : c ≡ d = ground arith in
      rw (send_all, offer-closed ev (b.heap d) v (ap b.heap (sym same) ∙ e) closed)
  | inr f ↦ elim (Option-cases (offer ev (b.heap d))) [
    | inl g ↦ rw (send_all, g)
    | inr (o, g) ↦
        let other : eqb d c ≡ false = ground arith in
        rw (send_all, g)
          (send_all_closed ev c v cs (record b { heap = λ x. if eqb d x then o else b.heap x })
            (rw other e) closed (rw f at m))
  ]
]

-- Where the connection of a recipient closes after publishLocal has chosen the recipients and
-- before it sends, the run of sends panics.
pub send_all-close :
    (b : Broker) (ev : Event) (owner_id : Text) (c : ℕ)
    → in_line b ev owner_id c ≡ true
    → send_all ev (recipients b ev owner_id) (close b c) ≡ none
unfolding recipients close
send_all-close b ev owner_id c h = elim (Option-cases (b.heap c)) [
  | inl none_ ↦ absurd (absent (member c (set_of (lookup ev.collection b.subs))) (rw none_ at h))
  | inr (v, e) ↦
      send_all_closed ev c (record v { is_closed = true }) (recipients b ev owner_id) (close b c)
        (shut_here v e) refl
        (member-select c (λ d. may_see owner_id (b.heap d)) (set_of (lookup ev.collection b.subs))
          ∙ h)
]
  where
    absent : (p : Bool) → (p && false) ≡ true → ⊥
    absent true e = cc e
    absent false e = cc e

    shut_here :
        (v : Conn) → b.heap c ≡ some v → (close b c).heap c ≡ some (record v { is_closed = true })
    shut_here v e = ground (arith, e)
