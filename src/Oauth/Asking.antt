-- ===== src/Oauth/Asking.antt =====
-- When the consent screen comes back after a user has answered it.
use maubase.Prelude.{
  ◌≡◌, refl, sym, ◌∙◌, subst, inl, inr, Text, ◌==◌, eq_refl, eq→path, Bool, true, false, some, List,
  [], ◌∷◌, exists, arith, Bool-cases,
}
use maubase.Sql.{faulty, ok, ◌>>=◌}
use maubase.Schema.{Tables}
use maubase.Oauth.Consent.{
  has, scope_set_contains_all, scopes_not_in, get_consent, allow, finish, ask, continue_authorize,
}
use maubase.Oauth.Consenting.{stored, AllowPost, allow-Ensures}

-- One scope missing is enough to ask, and the set contains the list if it has each member.
contains_all-missing :
    (s : Text) (have want : List Text)
    → has s want ≡ true
    → has s have ≡ false
    → scope_set_contains_all have want ≡ false
unfolding has scope_set_contains_all exists
contains_all-missing s have [] h k = absurd (cc h)
contains_all-missing s have (w ∷ want) h k = elim (Bool-cases (w == s)) [
  | inl e ↦
      let k' : has w have ≡ false = subst (λ z. has z have ≡ false) (sym (eq→path w s e)) k in
      rw k' refl
  | inr e ↦ ground (arith, contains_all-missing s have want, h, k, e)
]

contains_all_lem :
    (have want : List Text)
    → ((s : Text) → has s want ≡ true → has s have ≡ true)
    → scope_set_contains_all have want ≡ true
unfolding has scope_set_contains_all exists
contains_all_lem have [] h = refl
contains_all_lem have (w ∷ want) h = rw (h w (rw (eq_refl w) refl)) (
    contains_all_lem have want
      (λ s k. h s (elim (Bool-cases (w == s)) [ inl e ↦ rw e refl | inr e ↦ rw e k ])))

module _ (t : Tables) (user_id client_id : Text) (wanted scopes : List Text)
    (saved : stored user_id client_id t.consents ≡ some scopes) where
  asks :
      (faults : List Bool)
      → scope_set_contains_all scopes wanted ≡ false
      → (previous : List Text) × ((continue_authorize user_id client_id wanted
            (record { tables = t; faults = faults })).0
          ≡ ask wanted previous)
  unfolding continue_authorize get_consent ◌>>=◌
  asks faults missing = elim (Bool-cases (faulty faults)) [
    | inl e ↦ (scopes_not_in [] wanted, rw e refl)
    | inr e ↦ (scopes_not_in scopes wanted, rw e (rw saved (rw missing refl)))
  ]

  finishes :
      scope_set_contains_all scopes wanted ≡ true
      → (continue_authorize user_id client_id wanted (record { tables = t; faults = [] })).0
        ≡ finish wanted
  unfolding continue_authorize get_consent ◌>>=◌
  finishes all_there = rw saved (rw all_there refl)

module _ (t : Tables) (user_id client_id : Text) (requested ticked keep : List Text)
    (faults : List Bool) (granted : List Text) where
  -- The tables after the consent step.
  abbrev pub after : Tables
  after =
      (allow user_id client_id requested ticked keep
        (record { tables = t; faults = faults })).1.tables

  saved_after :
      (allow user_id client_id requested ticked keep (record { tables = t; faults = faults })).0
        ≡ ok granted
      → AllowPost t user_id client_id requested ticked keep faults (ok granted) after
  saved_after done =
      subst (λ r. AllowPost t user_id client_id requested ticked keep faults r after) done
        (allow-Ensures t user_id client_id requested ticked keep faults)

  -- After a consent step that succeeds, whatever was stored before, a request for a scope that was
  -- ticked in neither list shows the consent screen, whichever statements fail: an unticked scope
  -- is revoked.
  pub continue_authorize-allow :
      (wanted : List Text) (s : Text) (later_faults : List Bool)
      → (allow user_id client_id requested ticked keep (record { tables = t; faults = faults })).0
        ≡ ok granted
      → has s wanted ≡ true
      → has s ticked ≡ false
      → has s keep ≡ false
      → (previous : List Text) × ((continue_authorize user_id client_id wanted
            (record { tables = after; faults = later_faults })).0
          ≡ ask wanted previous)
  continue_authorize-allow wanted s later_faults done want unticked dropped =
      let (given, scopes, saved, members, others) = saved_after done in
      asks after user_id client_id wanted scopes saved later_faults (
        contains_all-missing s scopes wanted want
          (members s ∙ rw (given s, unticked, dropped) refl))

  -- After a consent step that succeeds, a request for scopes that were all granted goes on to the
  -- redirect without the consent screen, where its statement does not fail.
  pub continue_authorize-allow-finish :
      (wanted : List Text)
      → (allow user_id client_id requested ticked keep (record { tables = t; faults = faults })).0
        ≡ ok granted
      → ((s : Text) → has s wanted ≡ true → has s granted ≡ true)
      → (continue_authorize user_id client_id wanted (record { tables = after; faults = [] })).0
        ≡ finish wanted
  continue_authorize-allow-finish wanted done all_granted =
      let (given, scopes, saved, members, others) = saved_after done in
      finishes after user_id client_id wanted scopes saved
        (contains_all_lem scopes wanted (λ s want. members s ∙ rw (all_granted s want) refl))
