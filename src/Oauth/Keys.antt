-- ===== src/Oauth/Keys.antt =====
-- internal/oauth/keys.go: the signing keys and the HMAC secret. A key is its DER document here.
use maubase.Prelude.{
  Text, ◌==◌, Bool, true, false, Option, none, some, List, [], ◌∷◌, ◌++◌, if◌then◌else◌, update,
  first, exists,
}
use maubase.Sql.{Sql, pure, from_option, query, exec, exec_checked, transaction, ◌>>=◌, ◌>>◌}
use maubase.Schema.{Tables, SigningKeyRow}
use maubase.Oauth.{Error}

-- crypto/rsa and crypto/x509: which documents parse as a key.
pub record Rsa : Type 0 where
  pub parses : Text → Bool

-- What a call draws: a new key with its id (no key where the generator fails), and a secret.
pub record KeyDraw : Type 0 where
  pub kid : Text
  pub key : Option Text
  pub secret : Option Text

abbrev pub Key : Type 0
Key = Text × Text

unfoldable pub insert_key : SigningKeyRow → Tables → Option Tables
insert_key r t =
    if exists (λ k. k.kid == r.kid) t.signing_keys
    then none
    else some (record t { signing_keys = t.signing_keys ++ r ∷ [] })

abbrev pub retire : SigningKeyRow → SigningKeyRow
retire k = record k { is_current = false }

unfoldable pub insert_secret : Text → Tables → Option Tables
insert_secret s t = elim (t.hmac_secret) [
  | none ↦ some (record t { hmac_secret = some s })
  | some x ↦ none
]

module _ (rsa : Rsa) where
  abbrev pub parse : SigningKeyRow → Option Key
  parse k = if rsa.parses k.private_der then some (k.kid, k.private_der) else none

  unfoldable pub rotate_body : Text → Text → Sql Tables Error Key
  unfolding insert_key
  rotate_body kid key = do
    exec (λ t. record t { signing_keys = update (λ k. true) retire t.signing_keys })
    exec_checked (insert_key (record { kid = kid; private_der = key; is_current = true }))
    pure (kid, key)

  unfoldable pub rotate : KeyDraw → Sql Tables Error Key
  unfolding rotate_body transaction
  rotate d = do key ← from_option d.key; transaction (rotate_body d.kid key)

  -- What EnsureKey does with the answer of currentKey.
  unfoldable pub use_or_rotate : KeyDraw → Option SigningKeyRow → Sql Tables Error Key
  unfolding rotate
  use_or_rotate d none = rotate d
  use_or_rotate d (some k) = from_option (parse k)

  unfoldable pub ensure_key : KeyDraw → Sql Tables Error Key
  unfolding use_or_rotate
  ensure_key d = do
    found ← query (λ t. first (λ k. k.is_current) t.signing_keys)
    use_or_rotate d found

  unfoldable pub use_or_draw : KeyDraw → Option Text → Sql Tables Error Text
  unfolding insert_secret
  use_or_draw d (some s) = pure s
  use_or_draw d none = do
    secret ← from_option d.secret
    exec_checked (insert_secret secret)
    pure secret

  unfoldable pub ensure_hmac_secret : KeyDraw → Sql Tables Error Text
  unfolding use_or_draw
  ensure_hmac_secret d = do found ← query (λ t. t.hmac_secret); use_or_draw d found

  -- The keys that JWKS publishes; none where one does not parse.
  unfoldable pub published : List SigningKeyRow → Option (List Key)
  published [] = some []
  published (k ∷ ks) = elim (parse k) [
    | none ↦ none
    | some key ↦ elim (published ks) [ none ↦ none | some keys ↦ some (key ∷ keys) ]
  ]

  unfoldable pub jwks : Sql Tables Error (List Key)
  unfolding published
  jwks = do ks ← query (λ t. t.signing_keys); from_option (published ks)
