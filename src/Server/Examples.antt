-- ===== src/Server/Examples.antt =====
-- Runs of the handlers on a small state, and the theorems on them.
use maubase.Prelude.{
  All, ◌+◌, ◌-◌, ◌≡◌, refl, min, codes, ◌==◌, none, some, [], ◌∷◌, count, lookup, first, exists,
  inl, arith,
}
use maubase.Sql.{err, pure, ◌>>=◌}
use maubase.Sql.Ensures.{Ensures, Ensures-pure}
use maubase.Schema.{OwnerRow, OwnerSessionRow, FileRow}
use maubase.Auth.{User}
use maubase.Auth.Social.{Draws}
use maubase.Auth.Examples.{plain as crypto, ascii, accounts, at_noon}
use maubase.Oauth.Examples.{json}
use maubase.OwnerAuth.{joined, validate_session, delete_owner}
use maubase.OwnerAuth.Roles.{owner, at_least, rank}
use maubase.RateLimit.{Limiter}
use maubase.RateLimit.Windows.{tries}
use maubase.RestApi.Examples.{upper, store, reg, sv, all_exposed}
use maubase.Server.World.{Env, Drawn, World, plain, run_part}
use maubase.Server.Account.{handle_delete_account, handle_forgot_password}
use maubase.Server.Owners.{remove, route, require_owner_role, handle_delete_owner}
use maubase.Server.Social.{Provider, Callback, handle_social_callback}
use maubase.Server.Access.{AccessPost, route-Ensures}
use maubase.Server.Erasure.{DeletePost, handle_delete_account-Ensures}
use maubase.Server.Forgotten.{ForgotPost, handle_forgot_password-Ensures}
use maubase.Server.Forgery.{CallbackPost, handle_social_callback-Ensures}
use maubase.Server.Guessing.{
  Sent, password_login, other, IsBare, serve, is_tried, attempts, serve-granted_window,
}

abbrev pub env : Env
env = record {
  crypto = crypto;
  unicode = ascii;
  json = json;
  codec = record { marshal = λ m. some (codes "m"); unmarshal = λ j. none };
  restapi = sv;
  registry = reg;
  password_reset_url = codes "https://app/reset";
  escape = λ s. s;
}

abbrev pub drawn : Drawn
drawn = record { first = at_noon; second = at_noon; log_id = codes "e1"; log_now = 100 }

abbrev quiet : Limiter
quiet = record { limit = 2; window = 60; buckets = [] }

abbrev ana : User
ana = record { id = codes "ana"; email = codes "ana@x.io"; created_at = 1; updated_at = 1 }

abbrev a_file : FileRow
a_file = record {
  id = codes "f1";
  owner_id = codes "ana";
  filename = codes "a.txt";
  content_type = codes "text/plain";
  size_bytes = 1;
  storage_key = codes "f1";
  created_at = 1;
}

abbrev boss : OwnerRow
boss = record {
  id = codes "o1";
  email = codes "boss@x.io";
  password_hash = codes "long enough";
  role = owner;
  created_at = 1;
  updated_at = 1;
}

abbrev boss_session : OwnerSessionRow
boss_session = record {
  id = codes "os1";
  owner_id = codes "o1";
  token_hash = codes "boss-token";
  expires_at = 999;
}

abbrev pub world : World
world = record {
  tables = record accounts {
    files = a_file ∷ [];
    owner_users = boss ∷ [];
    owner_sessions = boss_session ∷ [];
  };
  data_tables = store;
  blobs = (codes "f1", codes "x") ∷ [];
  mails = [];
  login_limiter = quiet;
  register_limiter = quiet;
  owner_login_limiter = quiet;
  ui_login_limiter = quiet;
}

handle_delete_account-Ensures_example :
    Ensures (DeletePost env ana world) world (handle_delete_account env drawn ana)
unfolding exists
handle_delete_account-Ensures_example =
    handle_delete_account-Ensures env ana upper drawn world all_exposed (refl, tt)

handle_forgot_password-Ensures_example :
    Ensures
      (ForgotPost env drawn (codes "ana@x.io") world)
      world
      (handle_forgot_password env drawn (some (codes "ana@x.io")))
handle_forgot_password-Ensures_example =
    handle_forgot_password-Ensures env drawn (codes "ana@x.io") world

route-Ensures_example :
    Ensures
      (AccessPost env drawn world (some (codes "boss-token")) owner)
      world
      (route env drawn (some (codes "boss-token")) (remove (codes "o1")))
route-Ensures_example =
    route-Ensures env drawn world (some (codes "boss-token")) (remove (codes "o1"))

-- The last owner stays.
last_owner :
    (route env drawn
      (some (codes "boss-token"))
      (remove (codes "o1"))
      (record { tables = world; faults = [] })).0
    ≡ err (plain 409)
unfolding route require_owner_role handle_delete_owner run_part at_least rank ◌>>=◌ joined
    delete_owner validate_session first count ◌==◌
last_owner = refl

-- A provider that knows one code.
abbrev provider : Provider
provider = record {
  name = codes "google";
  auth_code_url = λ s. s;
  exchange = λ code. some code;
  fetch_identity = λ t. some (record { provider_user_id = codes "g1"; email = codes "ana@x.io" });
}

abbrev draws : Draws
draws = record { user = at_noon; link = at_noon; session = at_noon }

abbrev back : Callback
back = record {
  state = codes "s";
  denied = [];
  code = codes "c";
  cookies =
      (codes "maubase_social_state_github", codes "t")
      ∷ (codes "maubase_social_state_google", codes "s")
      ∷ [];
  authorization = [];
  session_cookie = none;
}

handle_social_callback-Ensures_example :
    Ensures
      (CallbackPost env drawn draws
        (codes "/")
        ((codes "google", provider) ∷ [])
        (codes "google")
        back
        world)
      world
      (handle_social_callback env drawn draws
        (codes "/")
        ((codes "google", provider) ∷ [])
        (codes "google")
        back)
handle_social_callback-Ensures_example =
    handle_social_callback-Ensures env drawn draws (codes "/") ((codes "google", provider) ∷ [])
      (codes "google") back world

abbrev guess : Sent
guess = record {
  ip = codes "1.2.3.4";
  at = 5;
  asks = password_login drawn (some (record { email = codes "ana@x.io"; password = codes "no" }));
}

-- Another route, which answers 204.
abbrev elsewhere : Sent
elsewhere = record { ip = codes "1.2.3.4"; at = 6; asks = other (pure (plain 204)) }

serve-granted_window_example :
    (count
        (is_tried (codes "1.2.3.4"))
        (serve env (guess ∷ elsewhere ∷ guess ∷ []) (record { tables = world; faults = [] }))
      ≡ 1 + min (tries (codes "1.2.3.4") (attempts (elsewhere ∷ guess ∷ []))) (2 - 1))
    × All IsBare
        (serve env (guess ∷ elsewhere ∷ guess ∷ []) (record { tables = world; faults = [] }))
unfolding lookup
serve-granted_window_example =
    serve-granted_window env guess (elsewhere ∷ guess ∷ []) (record { tables = world; faults = [] })
      refl (tt, ((λ w. Ensures-pure _ w (plain 204) (refl, refl)), (tt, tt))) tt (inl refl)
      (omega arith)
