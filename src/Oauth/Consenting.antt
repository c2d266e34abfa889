-- ===== src/Oauth/Consenting.antt =====
-- What the consent form stores.
use maubase.Prelude.{
  ◌≡◌, refl, sym, ap, ap₂, ◌∙◌, subst, inl, inr, Text, ◌==◌, eq_refl, eq→path, Bool, true, false,
  not, ◌&&◌, ◌||◌, Option, some, List, [], ◌∷◌, ◌++◌, select, delete, first, exists, arith,
  Bool-cases, Option-cases, none, eq_of_some, if◌then◌else◌,
}
use maubase.Sql.{Result, ok, err, failed, faulty, query, ◌>>=◌}
use maubase.Sql.Ensures.{Ensures, Then, Ensures-bind, Ensures-exec_checked, Ensures-pure}
use maubase.Schema.{Tables, ConsentRow}
use maubase.Oauth.{Error}
use maubase.Oauth.Consent.{
  has, is_allowed_scope, scopes_not_in, granted_scopes, deduped, is_consent, scopes_of, get_consent,
  upsert, put_consent, save_consent, or_empty, persist, allow,
}

has-append : (s : Text) (xs ys : List Text) → has s (xs ++ ys) ≡ (has s xs || has s ys)
unfolding has exists
has-append s [] ys = refl
has-append s (x ∷ xs) ys = ground (arith, has-append s xs ys)

has-select : (s : Text) (p : Text → Bool) (xs : List Text) → has s (select p xs) ≡ (has s xs && p s)
unfolding has exists select
has-select s p [] = refl
has-select s p (x ∷ xs) = elim (Bool-cases (x == s)) [
  | inl e ↦ elim (Bool-cases (p x)) [
    | inl k ↦ let k' : p s ≡ true = subst (λ y. p y ≡ true) (eq→path x s e) k in rw (k, k', e) refl
    | inr k ↦
        let k' : p s ≡ false = subst (λ y. p y ≡ false) (eq→path x s e) k in
        ground (arith, has-select s p xs, k', k, e)
  ]
  | inr e ↦ ground (arith, has-select s p xs)
]

has-delete :
    (s y : Text) (xs : List Text) → (y == s) ≡ false → has s (delete (λ x. x == y) xs) ≡ has s xs
unfolding has exists delete
has-delete s y [] h = refl
has-delete s y (x ∷ xs) h = elim (Bool-cases (x == y)) [
  | inl e ↦
      let e' : (x == s) ≡ false = subst (λ z. (z == s) ≡ false) (sym (eq→path x y e)) h in
      rw (e, e') (has-delete s y xs h)
  | inr e ↦ ground (arith, has-delete s y xs h)
]

has-deduped : (s : Text) (xs : List Text) → has s (deduped xs) ≡ has s xs
unfolding has exists deduped
has-deduped s [] = refl
has-deduped s (x ∷ xs) = elim (Bool-cases (x == s)) [
  | inl e ↦ rw e refl
  | inr e ↦ rw e (has-delete s x (deduped xs) e ∙ has-deduped s xs)
]

-- The scopes that are stored for a user and a client.
abbrev pub stored : Text → Text → List ConsentRow → Option (List Text)
stored user_id client_id rows = scopes_of (first (is_consent user_id client_id) rows)

stored-upsert :
    (r : ConsentRow) (rows : List ConsentRow)
    → stored r.user_id r.client_id (upsert r rows) ≡ some r.scopes
unfolding upsert first
stored-upsert r [] = rw (eq_refl r.user_id, eq_refl r.client_id) refl
stored-upsert r (x ∷ rows) = elim (Bool-cases (is_consent r.user_id r.client_id x)) [
  | inl e ↦ rw e (rw e refl)
  | inr e ↦ rw e (rw e (stored-upsert r rows))
]

stored-upsert_other :
    (user_id client_id : Text) (r : ConsentRow) (rows : List ConsentRow)
    → is_consent user_id client_id r ≡ false
    → stored user_id client_id (upsert r rows) ≡ stored user_id client_id rows
unfolding upsert first
stored-upsert_other user_id client_id r [] h = rw h refl
stored-upsert_other user_id client_id r (x ∷ rows) h =
    elim (Bool-cases (is_consent r.user_id r.client_id x)) [
      | inl e ↦
          let other : is_consent user_id client_id x ≡ false =
            ap₂ (λ (a b : Text). (a == user_id) && (b == client_id))
              (eq→path x.user_id r.user_id (ground (arith, e)))
              (eq→path x.client_id r.client_id (ground (arith, e)))
            ∙ h in
          rw (e, other) refl
      | inr e ↦ elim (Bool-cases (is_consent user_id client_id x)) [
        | inl k ↦ rw (e, k) refl
        | inr k ↦ rw (e, k) (stored-upsert_other user_id client_id r rows h)
      ]
    ]

module _ (t : Tables) (user_id client_id : Text) where
  abbrev or_nothing : Option (List Text) → List Text
  or_nothing none = []
  or_nothing (some scopes) = scopes

  -- The scopes stored before: nothing where there are none, or where the statement that reads them
  -- fails, which is the first.
  abbrev pub existing_at : List Bool → List Text
  existing_at bs = if faulty bs then [] else or_nothing (stored user_id client_id t.consents)

  get_consent_lem :
      (bs : List Bool)
      → (or_empty (get_consent user_id client_id (record { tables = t; faults = bs })).0
          ≡ existing_at bs)
        × ((get_consent user_id client_id (record { tables = t; faults = bs })).1.tables ≡ t)
  unfolding get_consent query ◌>>=◌
  get_consent_lem bs = elim (Bool-cases (faulty bs)) [
    | inl e ↦ rw e (refl, refl)
    | inr e ↦ elim (Option-cases (stored user_id client_id t.consents)) [
      | inl none_there ↦ rw (e, none_there) (refl, refl)
      | inr (scopes, there) ↦ rw (e, there) (refl, refl)
    ]
  ]

  module _ (requested ticked keep : List Text) where
    abbrev PersistPost : List Text → Result Error (List Text) → Tables → Type 0
    PersistPost existing (ok granted) t' =
        ((s : Text) → has s granted ≡ (has s ticked && (is_allowed_scope s && has s requested)))
        × (scopes : List Text) × (stored user_id client_id t'.consents ≡ some scopes)
        × ((s : Text)
            → has s scopes ≡ (
                has s granted
                || (has s keep
                    && (is_allowed_scope s && (has s existing && not (has s requested))))))
        × ((u c : Text)
            → ((user_id == u) && (client_id == c)) ≡ false
            → stored u c t'.consents ≡ stored u c t.consents)
    PersistPost existing (err e) t' = t' ≡ t
    PersistPost existing failed t' = t' ≡ t

    has-granted_scopes :
        (s : Text) (xs ys : List Text)
        → has s (granted_scopes xs ys) ≡ (has s xs && (is_allowed_scope s && has s ys))
    has-granted_scopes s xs ys =
        unfold granted_scopes in has-select s (λ z. is_allowed_scope z && has z ys) xs

    has-scopes_not_in :
        (s : Text) (xs ys : List Text) → has s (scopes_not_in xs ys) ≡ (has s xs && not (has s ys))
    has-scopes_not_in s xs ys = unfold scopes_not_in in has-select s (λ z. not (has z ys)) xs

    put_consent-some :
        (r : ConsentRow) (t' : Tables)
        → put_consent r t ≡ some t'
        → t'.consents ≡ upsert r t.consents
    unfolding put_consent
    put_consent-some r t' h =
        elim (Bool-cases (
          exists (λ u. u.id == r.user_id) t.users && exists (λ c. c.id == r.client_id) t.clients)) [
            | inl e ↦ ap (λ (x : Tables). x.consents) (sym (eq_of_some _ t' (rw e at h)))
            | inr e ↦ absurd (cc (rw e at h))
          ]

    persist-Ensures :
        (existing : List Text)
        → Ensures
            (PersistPost existing)
            t
            (persist user_id client_id requested ticked keep existing)
    unfolding persist save_consent
    persist-Ensures existing =
        Ensures-bind Q t (save_consent user_id client_id (granted ++ kept)) _ (
          Ensures-exec_checked (Then Q _) t (put_consent row) refl (λ t' e.
            Ensures-pure Q t' granted (
              (λ s. has-granted_scopes s ticked requested),
              deduped (granted ++ kept),
              ap (stored user_id client_id) (put_consent-some row t' e)
                  ∙ stored-upsert row t.consents,
              (λ s.
                  has-deduped s (granted ++ kept)
                  ∙ has-append s granted kept
                  ∙ ap (λ b. has s granted || b)
                      (has-granted_scopes s keep (scopes_not_in existing requested)
                        ∙ ap (λ b. has s keep && (is_allowed_scope s && b))
                            (has-scopes_not_in s existing requested))),
              (λ u c other.
                  ap (stored u c) (put_consent-some row t' e)
                  ∙ stored-upsert_other u c row t.consents other),
            )))
      where
        Q : Result Error (List Text) → Tables → Type 0
        Q = PersistPost existing

        granted : List Text
        granted = granted_scopes ticked requested

        kept : List Text
        kept = granted_scopes keep (scopes_not_in existing requested)

        row : ConsentRow
        row = record {
          user_id = user_id;
          client_id = client_id;
          scopes = deduped (granted ++ kept);
        }

module _ (t : Tables) (user_id client_id : Text) (requested ticked keep : List Text) where
  abbrev pub AllowPost : List Bool → Result Error (List Text) → Tables → Type 0
  AllowPost bs =
      PersistPost t user_id client_id requested ticked keep (existing_at t user_id client_id bs)

  -- Once the user allows, whichever statements fail: the scopes granted are those ticked that are
  -- supported and were requested; the scopes stored for this user and client are the granted ones
  -- and those left ticked among the supported ones that were stored before and are not requested
  -- now (none, if the statement that reads the consent stored before fails), so no other is kept
  -- and none of these is lost; every other consent stays as it was; and where the step does not
  -- succeed nothing changes.
  pub allow-Ensures :
      (bs : List Bool)
      → AllowPost bs
          (allow user_id client_id requested ticked keep (record { tables = t; faults = bs })).0
          (allow user_id client_id requested ticked keep
            (record { tables = t; faults = bs })).1.tables
  unfolding allow
  allow-Ensures bs =
      let out = get_consent user_id client_id (record { tables = t; faults = bs }) in
      let (read, same) = get_consent_lem t user_id client_id bs in
      let done = persist user_id client_id requested ticked keep (or_empty out.0) out.1 in
      subst
        (λ kept. PersistPost t user_id client_id requested ticked keep kept done.0 done.1.tables)
        read
        (subst
          (λ x.
            PersistPost x user_id client_id requested ticked keep (or_empty out.0) done.0
              done.1.tables)
          same
          ((persist-Ensures out.1.tables user_id client_id requested ticked keep
              (or_empty out.0)).at
            out.1.faults))
