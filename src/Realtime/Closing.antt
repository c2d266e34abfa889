-- ===== src/Realtime/Closing.antt =====
-- Unsubscribing and closing keep the broker's invariant: both drop the entry of a collection whose
-- set they empty, and no set keeps a closed connection.
use maubase.Prelude.{
  ℕ, ◌≤◌, ◌≡◌, refl, Text, ◌==◌, false, Option, none, some, List, [], ◌∷◌, length, eqb, arith,
  Bool-cases, Option-cases, inl, inr, All, exists, Assoc, lookup, IsMap, put-IsMap, remove-IsMap,
  All-lookup, All-put, All-remove,
}
use maubase.Realtime.{
  capacity, Conn, Broker, discard, store, unsubscribe, keep_entry, discard_all, shut, close,
}
use maubase.Realtime.Safety.{Heap, Live, Distinct, IsGood, IsSound, discard-Distinct, discard-Live}

module _ (h : Heap) (collection : Text) (subs : Assoc (List ℕ)) where
  store-sets :
      (ds : List ℕ)
      → Distinct ds
      → All (Live h) ds
      → All (λ e. IsGood h e.1) subs
      → All (λ e. IsGood h e.1) (store collection ds subs)
  store-sets [] distinct live sets = All-remove (IsGood h) collection subs sets
  store-sets (d ∷ ds) distinct live sets =
      All-put (IsGood h) collection (d ∷ ds) subs
        (record { distinct = distinct; live = live; inhabited = refl }) sets

  keep_entry-sets :
      (ds : List ℕ)
      → Distinct ds
      → All (Live h) ds
      → All (λ e. IsGood h e.1) subs
      → All (λ e. IsGood h e.1) (keep_entry collection ds subs)
  keep_entry-sets [] distinct live sets = sets
  keep_entry-sets (d ∷ ds) distinct live sets =
      (record { distinct = distinct; live = live; inhabited = refl }, sets)

store-IsMap :
    (collection : Text) (ds : List ℕ) (subs : Assoc (List ℕ))
    → IsMap subs
    → IsMap (store collection ds subs)
store-IsMap collection [] subs u = remove-IsMap collection subs u
store-IsMap collection (d ∷ ds) subs u = put-IsMap collection (d ∷ ds) subs u

keep_entry-exists :
    (k collection : Text) (ds : List ℕ) (rest : Assoc (List ℕ))
    → (collection == k) ≡ false
    → exists (λ e. e.0 == k) rest ≡ false
    → exists (λ e. e.0 == k) (keep_entry collection ds rest) ≡ false
unfolding exists
keep_entry-exists k collection [] rest other h = h
keep_entry-exists k collection (d ∷ ds) rest other h = rw (other, h)

discard_all-exists :
    (c : ℕ) (k : Text) (subs : Assoc (List ℕ))
    → exists (λ e. e.0 == k) subs ≡ false
    → exists (λ e. e.0 == k) (discard_all c subs) ≡ false
unfolding discard_all exists
discard_all-exists c k [] h = refl
discard_all-exists c k ((collection, ds) ∷ rest) h =
    keep_entry-exists k collection (discard c ds) (discard_all c rest) (ground arith)
      (discard_all-exists c k rest (ground arith))

keep_entry-IsMap :
    (collection : Text) (ds : List ℕ) (rest : Assoc (List ℕ))
    → exists (λ e. e.0 == collection) rest ≡ false
    → IsMap rest
    → IsMap (keep_entry collection ds rest)
keep_entry-IsMap collection [] rest h u = u
keep_entry-IsMap collection (d ∷ ds) rest h u = (h, u)

discard_all-IsMap : (c : ℕ) (subs : Assoc (List ℕ)) → IsMap subs → IsMap (discard_all c subs)
unfolding discard_all
discard_all-IsMap c [] u = tt
discard_all-IsMap c ((collection, ds) ∷ rest) u =
    keep_entry-IsMap collection (discard c ds) (discard_all c rest)
      (discard_all-exists c collection rest u.0) (discard_all-IsMap c rest u.1)

discard_all-sets :
    (h h' : Heap) (c : ℕ) (subs : Assoc (List ℕ))
    → ((d : ℕ) → eqb c d ≡ false → h' d ≡ h d)
    → All (λ e. IsGood h e.1) subs
    → All (λ e. IsGood h' e.1) (discard_all c subs)
unfolding discard_all
discard_all-sets h h' c [] same s = tt
discard_all-sets h h' c ((collection, ds) ∷ rest) same s =
    keep_entry-sets h' collection (discard_all c rest) (discard c ds)
      (discard-Distinct c ds s.0.distinct) (discard-Live h h' c same ds s.0.live)
      (discard_all-sets h h' c rest same s.1)

pub unsubscribe-IsSound :
    (b : Broker) (c : ℕ) (collection : Text) → IsSound b → IsSound (unsubscribe b c collection)
unfolding unsubscribe
unsubscribe-IsSound b c collection s = elim (Option-cases (lookup collection b.subs)) [
  | inl e ↦ record { map = rw e s.map; sets = rw e s.sets; bounded = s.bounded; fresh = s.fresh }
  | inr (ds, e) ↦
      let g = All-lookup (IsGood b.heap) collection b.subs ds s.sets e in
      record {
        map = rw e (store-IsMap collection (discard c ds) b.subs s.map);
        sets = rw e (
            store-sets b.heap collection b.subs (discard c ds) (discard-Distinct c ds g.distinct)
              (discard-Live b.heap b.heap c (λ d f. refl) ds g.live) s.sets);
        bounded = s.bounded;
        fresh = s.fresh;
      }
]

shut_bounded :
    (o : Option Conn) (n : ℕ)
    → ((v : Conn) → o ≡ some v → length v.events ≤ n)
    → (v : Conn) → shut o ≡ some v
    → length v.events ≤ n
shut_bounded none n k v e = absurd (cc)
shut_bounded (some w) n k v e = ground (arith, k w refl)

shut_fresh : (o : Option Conn) → o ≡ none → shut o ≡ none
shut_fresh o e = rw e

pub close-IsSound : (b : Broker) (c : ℕ) → IsSound b → IsSound (close b c)
unfolding close
close-IsSound b c s = record {
  map = discard_all-IsMap c b.subs s.map;
  sets = discard_all-sets b.heap (close b c).heap c b.subs (λ d f. rw f) s.sets;
  bounded = λ d v. elim (Bool-cases (eqb c d)) [
    | inl t ↦ rw t (shut_bounded (b.heap d) capacity (s.bounded d) v)
    | inr f ↦ rw f (s.bounded d v)
  ];
  fresh = λ d h. elim (Bool-cases (eqb c d)) [
    | inl t ↦ rw t (shut_fresh (b.heap d) (s.fresh d h))
    | inr f ↦ rw f (s.fresh d h)
  ];
}
