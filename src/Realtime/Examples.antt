-- ===== src/Realtime/Examples.antt =====
-- The broker at concrete connections: Ana and Bo, who both subscribe to notes.
use maubase.Prelude.{
  ℕ, ◌≡◌, refl, Text, codes, ◌==◌, true, false, none, some, [], if◌then◌else◌, lookup,
}
use maubase.Realtime.{
  Event, Broker, create, new_conn, member, subscribe, close, recipients, send_all, publish_local,
}
use maubase.Realtime.Safety.{IsSound}
use maubase.Realtime.Delivery.{delivered, in_line, publish_local_lem}
use maubase.Realtime.Steps.{Reach, starts, steps, opens, subscribes, Reach-IsSound}
use maubase.Realtime.Race.{send_all-close}

abbrev notes : Text
notes = codes "notes"

abbrev ana : Text
ana = codes "ana"

abbrev created : Event
created = record { kind = codes "created"; collection = notes; row = some (codes "{}"); id = [] }

abbrev joined : Broker
unfolding create new_conn subscribe
joined = subscribe (new_conn (subscribe (new_conn create ana).0 0 notes) (codes "bo")).0 1 notes

joined_reached : Reach joined
unfolding create new_conn subscribe
joined_reached =
    steps
      (steps (steps (steps starts (opens create ana)) (subscribes _ 0 notes (_, refl, refl)))
        (opens _ (codes "bo")))
      (subscribes _ 1 notes (_, refl, refl))

Reach-IsSound_example : IsSound joined
Reach-IsSound_example = Reach-IsSound joined_reached

publish_local_lem_example :
    (b' : Broker) × (publish_local joined created ana ≡ some b')
    × (b'.subs ≡ joined.subs)
    × (b'.next ≡ joined.next)
    × ((d : ℕ)
        → b'.heap d ≡ (
            if in_line joined created ana d
            then delivered created (joined.heap d)
            else joined.heap d))
publish_local_lem_example = publish_local_lem joined created ana (Reach-IsSound joined_reached)

ana-in_line : in_line joined created ana 0 ≡ true
unfolding create new_conn subscribe member lookup ◌==◌
ana-in_line = refl

bo_not_in_line : in_line joined created ana 1 ≡ false
unfolding create new_conn subscribe member lookup ◌==◌
bo_not_in_line = refl

send_all-close_example : send_all created (recipients joined created ana) (close joined 0) ≡ none
send_all-close_example = send_all-close joined created ana 0 ana-in_line
