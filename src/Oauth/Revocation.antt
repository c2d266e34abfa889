-- ===== src/Oauth/Revocation.antt =====
-- Revoking the grants of a subject, in one table after another and not in a transaction.
use maubase.Prelude.{
  ◌≡◌, refl, ap, ◌∙◌, Text, ◌==◌, Bool, false, not, ◌&&◌, List, [], ◌∷◌, All, exists, delete,
  select, exists-delete, exists-delete_keep, select-delete,
}
use maubase.Sql.{Result, ok, err, failed}
use maubase.Sql.Ensures.{Ensures, Then, Ensures-pure, Ensures-bind, Ensures-exec, Ensures-weaken}
use maubase.Schema.{Tables, GrantRow}
use maubase.Oauth.{
  Error, Json, Grants, authorize_codes, access_tokens, refresh_tokens, pkce_requests, rows,
  set_rows, delete_by, is_of, oauth_grant_tables, revoke_where, revoke_for_subject,
  revoke_for_subject_and_client,
}

-- Replacing one table: what holds of its new rows and of every other table's holds of all.
each :
    (P : List GrantRow → List GrantRow → Type 0) (g : Grants) (xs : List GrantRow) (t : Tables)
    → P (rows g t) xs
    → ((ys : List GrantRow) → P ys ys)
    → (g' : Grants) → P (rows g' t) (rows g' (set_rows g xs t))
unfolding rows set_rows
each P authorize_codes xs t new old authorize_codes = new
each P authorize_codes xs t new old access_tokens = old t.access_tokens
each P authorize_codes xs t new old refresh_tokens = old t.refresh_tokens
each P authorize_codes xs t new old pkce_requests = old t.pkce_requests
each P access_tokens xs t new old authorize_codes = old t.authorize_codes
each P access_tokens xs t new old access_tokens = new
each P access_tokens xs t new old refresh_tokens = old t.refresh_tokens
each P access_tokens xs t new old pkce_requests = old t.pkce_requests
each P refresh_tokens xs t new old authorize_codes = old t.authorize_codes
each P refresh_tokens xs t new old access_tokens = old t.access_tokens
each P refresh_tokens xs t new old refresh_tokens = new
each P refresh_tokens xs t new old pkce_requests = old t.pkce_requests
each P pkce_requests xs t new old authorize_codes = old t.authorize_codes
each P pkce_requests xs t new old access_tokens = old t.access_tokens
each P pkce_requests xs t new old refresh_tokens = old t.refresh_tokens
each P pkce_requests xs t new old pkce_requests = new

rows-set_rows : (g : Grants) (xs : List GrantRow) (t : Tables) → rows g (set_rows g xs t) ≡ xs
unfolding rows set_rows
rows-set_rows authorize_codes xs t = refl
rows-set_rows access_tokens xs t = refl
rows-set_rows refresh_tokens xs t = refl
rows-set_rows pkce_requests xs t = refl

-- Nothing but the tables of grants differs.
abbrev pub OnlyGrants : Tables → Tables → Type 0
OnlyGrants t t' =
    (codes tokens refreshes requests : List GrantRow) × (t' ≡ record t {
      authorize_codes = codes;
      access_tokens = tokens;
      refresh_tokens = refreshes;
      pkce_requests = requests;
    })

set_rows-OnlyGrants :
    (g : Grants) (xs : List GrantRow) (t : Tables) → OnlyGrants t (set_rows g xs t)
unfolding set_rows
set_rows-OnlyGrants authorize_codes xs t =
    (xs, t.access_tokens, t.refresh_tokens, t.pkce_requests, refl)
set_rows-OnlyGrants access_tokens xs t =
    (t.authorize_codes, xs, t.refresh_tokens, t.pkce_requests, refl)
set_rows-OnlyGrants refresh_tokens xs t =
    (t.authorize_codes, t.access_tokens, xs, t.pkce_requests, refl)
set_rows-OnlyGrants pkce_requests xs t =
    (t.authorize_codes, t.access_tokens, t.refresh_tokens, xs, refl)

OnlyGrants-trans : (t t1 t' : Tables) → OnlyGrants t t1 → OnlyGrants t1 t' → OnlyGrants t t'
OnlyGrants-trans t t1 t' (a, b, c, d, e) (a', b', c', d', e') = (
  a',
  b',
  c',
  d',
  e'
      ∙ ap
          (λ (x : Tables). record x {
            authorize_codes = a';
            access_tokens = b';
            refresh_tokens = c';
            pkce_requests = d';
          })
          e,
)

revoke_where-OnlyGrants :
    (j : Json) (p : GrantRow → Bool) (gs : List Grants) (t : Tables)
    → Ensures (λ r t'. OnlyGrants t t') t (revoke_where j p gs)
unfolding revoke_where delete_by
revoke_where-OnlyGrants j p [] t =
    Ensures-pure (λ r t'. OnlyGrants t t') t tt
      (t.authorize_codes, t.access_tokens, t.refresh_tokens, t.pkce_requests, refl)
revoke_where-OnlyGrants j p (g ∷ gs) t = Ensures-bind Q t (delete_by g p) _ (
    Ensures-exec (Then Q _) t _
      (t.authorize_codes, t.access_tokens, t.refresh_tokens, t.pkce_requests, refl)
      (Ensures-weaken (λ r t'. OnlyGrants t1 t') Q t1 (revoke_where j p gs)
        (λ r t' h. OnlyGrants-trans t t1 t' (set_rows-OnlyGrants g (delete p (rows g t)) t) h)
        (revoke_where-OnlyGrants j p gs t1)))
  where
    Q : Result Error Unit → Tables → Type 0
    Q = λ r t'. OnlyGrants t t'

    t1 : Tables
    t1 = set_rows g (delete p (rows g t)) t

module _ (p : GrantRow → Bool) where
  -- The rows that the condition does not select are as before, in every table of grants.
  abbrev pub Spared : Tables → Tables → Type 0
  Spared t t' =
      (g : Grants) → select (λ r. not (p r)) (rows g t') ≡ select (λ r. not (p r)) (rows g t)

  -- A table without a selected row has none afterwards.
  abbrev Fewer : Tables → Tables → Type 0
  Fewer t t' = (g : Grants) → exists p (rows g t) ≡ false → exists p (rows g t') ≡ false

  abbrev pub Gone : Tables → Grants → Type 0
  Gone t g = exists p (rows g t) ≡ false

  abbrev Post : List Grants → Tables → Result Error Unit → Tables → Type 0
  Post gs t (ok x) t' = All (Gone t') gs × Spared t t' × Fewer t t'
  Post gs t (err e) t' = ⊥
  Post gs t failed t' = Spared t t'

  deleted : Grants → Tables → Tables
  deleted g t = set_rows g (delete p (rows g t)) t

  deleted-Spared : (g : Grants) (t : Tables) → Spared t (deleted g t)
  unfolding deleted
  deleted-Spared g t =
      each (λ old new. select (λ r. not (p r)) new ≡ select (λ r. not (p r)) old) g
        (delete p (rows g t)) t (select-delete p (rows g t)) (λ ys. refl)

  deleted-Fewer : (g : Grants) (t : Tables) → Fewer t (deleted g t)
  unfolding deleted
  deleted-Fewer g t =
      each (λ old new. exists p old ≡ false → exists p new ≡ false) g (delete p (rows g t)) t
        (exists-delete_keep p p (rows g t)) (λ ys h. h)

  deleted-Gone : (g : Grants) (t : Tables) → Gone (deleted g t) g
  unfolding deleted
  deleted-Gone g t = rw (rows-set_rows g (delete p (rows g t)) t) (exists-delete p (rows g t))

  revoke_where-Ensures :
      (j : Json) (gs : List Grants) (t : Tables) → Ensures (Post gs t) t (revoke_where j p gs)
  unfolding revoke_where delete_by deleted
  revoke_where-Ensures j [] t = Ensures-pure (Post [] t) t tt (tt, λ g. refl, λ g h. h)
  revoke_where-Ensures j (g ∷ gs) t = Ensures-bind (Post (g ∷ gs) t) t (delete_by g p) _ (
      Ensures-exec (Then (Post (g ∷ gs) t) _) t _ (λ g'. refl)
        (record { at = λ bs. extend _ _ ((revoke_where-Ensures j gs (deleted g t)).at bs) }))
    where
      extend :
          (r : Result Error Unit) (t' : Tables) → Post gs (deleted g t) r t' → Post (g ∷ gs) t r t'
      extend (ok x) t' (gone, spared, fewer) = (
        (fewer g (deleted-Gone g t), gone),
        λ g'. spared g' ∙ deleted-Spared g t g',
        λ g' h. fewer g' (deleted-Fewer g t g' h),
      )
      extend (err e) t' h = h
      extend failed t' spared = λ g'. spared g' ∙ deleted-Spared g t g'

  -- All four tables are rid of the selected rows on success.
  abbrev pub RevokePost : Tables → Result Error Unit → Tables → Type 0
  RevokePost t (ok x) t' = ((g : Grants) → exists p (rows g t') ≡ false) × Spared t t'
  RevokePost t (err e) t' = ⊥
  RevokePost t failed t' = Spared t t'

  all_tables-Ensures :
      (j : Json) (t : Tables) → Ensures (RevokePost t) t (revoke_where j p oauth_grant_tables)
  all_tables-Ensures j t = record {
    at = λ bs. go _ _ ((revoke_where-Ensures j oauth_grant_tables t).at bs);
  }
    where
      every :
          (t' : Tables)
          → All (Gone t') oauth_grant_tables
          → (g : Grants) → exists p (rows g t') ≡ false
      every t' gone authorize_codes = gone.0
      every t' gone access_tokens = gone.1.0
      every t' gone refresh_tokens = gone.1.1.0
      every t' gone pkce_requests = gone.1.1.1.0

      go :
          (r : Result Error Unit) (t' : Tables) → Post oauth_grant_tables t r t' → RevokePost t r t'
      go (ok x) t' (gone, spared, fewer) = (every t' gone, spared)
      go (err e) t' h = h
      go failed t' spared = spared

-- After RevokeForSubject succeeds, no authorize code, access token, refresh token or PKCE request
-- of the subject is left; whether it succeeds or stops on the way, every grant of anyone else is as
-- before, and in the same order.
pub revoke_for_subject-Ensures :
    (j : Json) (subject : Text) (t : Tables)
    → Ensures (RevokePost (is_of j subject) t) t (revoke_for_subject j subject)
unfolding revoke_for_subject
revoke_for_subject-Ensures j subject t = all_tables-Ensures (is_of j subject) j t

-- RevokeForSubjectAndClient does the same for the grants of the subject to one client, and leaves
-- the subject's grants to other clients as they are.
pub revoke_for_subject_and_client-Ensures :
    (j : Json) (subject client_id : Text) (t : Tables)
    → Ensures
        (RevokePost (λ r. is_of j subject r && r.client_id == client_id) t)
        t
        (revoke_for_subject_and_client j subject client_id)
unfolding revoke_for_subject_and_client
revoke_for_subject_and_client-Ensures j subject client_id t =
    all_tables-Ensures (λ r. is_of j subject r && r.client_id == client_id) j t

pub revoke_for_subject-OnlyGrants :
    (j : Json) (subject : Text) (t : Tables)
    → Ensures (λ r t'. OnlyGrants t t') t (revoke_for_subject j subject)
unfolding revoke_for_subject
revoke_for_subject-OnlyGrants j subject t =
    revoke_where-OnlyGrants j (is_of j subject) oauth_grant_tables t
