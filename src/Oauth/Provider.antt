-- ===== src/Oauth/Provider.antt =====
-- internal/oauth/provider.go: what the account pages ask of the authorization server. The scopes of
-- a consent stand decoded in its row, so that decoding them does not fail here.
use maubase.Prelude.{
  Text, ◌==◌, Bool, ◌&&◌, ◌||◌, not, Option, none, some, List, [], ◌∷◌, ◌++◌, select, delete, first,
  sort_with, text_leb,
}
use maubase.Sql.{Sql, query, exec, ◌>>◌}
use maubase.Schema.{Tables, ClientRow, ConsentRow}
use maubase.Oauth.{Json, Error, revoke_for_subject, revoke_for_subject_and_client}

pub record ConsentGrant : Type 0 where
  pub client_id : Text
  pub client_name : Text
  pub scopes : List Text

-- JOIN oauth_clients cl ON cl.id = c.client_id
abbrev pub granted_to : Option ClientRow → ConsentRow → List ConsentGrant
granted_to none c = []
granted_to (some client) c =
    record { client_id = c.client_id; client_name = client.client_name; scopes = c.scopes } ∷ []

unfoldable pub joined : List ClientRow → List ConsentRow → List ConsentGrant
joined clients [] = []
joined clients (c ∷ cs) =
    granted_to (first (λ x. x.id == c.client_id) clients) c ++ joined clients cs

-- ORDER BY cl.client_name, c.client_id
abbrev pub by_name : ConsentGrant → ConsentGrant → Bool
by_name x y =
    text_leb x.client_name y.client_name
    && (not (x.client_name == y.client_name) || text_leb x.client_id y.client_id)

unfoldable pub list_consents : Text → Sql Tables Error (List ConsentGrant)
unfolding joined
list_consents subject =
    query
      (λ t. sort_with by_name (joined t.clients (select (λ c. c.user_id == subject) t.consents)))

module _ (j : Json) where
  abbrev pub revoke_all_for_subject : Text → Sql Tables Error Unit
  revoke_all_for_subject = revoke_for_subject j

  unfoldable pub revoke_consent : Text → Text → Sql Tables Error Unit
  unfolding revoke_for_subject_and_client
  revoke_consent subject client_id = do
    exec (λ t. record t {
      consents = delete (λ c. c.user_id == subject && c.client_id == client_id) t.consents;
    })
    revoke_for_subject_and_client j subject client_id
