-- ===== src/RestApi/Requests.antt =====
-- internal/restapi/handlers.go: what the handlers take from a request and do on the way. A request
-- has what the router, the access token and encoding/json make of it.
use maubase.Prelude.{
  ℕ, Text, ◌==◌, Bool, true, false, not, ◌&&◌, ◌||◌, Option, none, some, List, [], ◌∷◌, ◌++◌, ltb,
  leb, if◌then◌else◌, Assoc, lookup, put, remove,
}
use maubase.Sql.{Sql, pure, raise, or_raise, guard, effect, ◌>>=◌, ◌>>◌}
use maubase.Numbers.{atoi}
use maubase.Realtime.{Event}
use maubase.RestApi.Sqlite.{Value, Json, Row, Engine, Store}
use maubase.RestApi.Discovery.{Collection, Registry, Rule, rule_owner, rule_denied, has_column}
use maubase.RestApi.Statements.{
  Reply, no_collection, forbidden, bad_limit, bad_offset, limit_over, body_too_large, bad_json,
  unknown_field, nested_field,
}

-- What json.Decoder makes of a body under MaxBytesReader.
pub data Body : Type 0 where
  too_large malformed null : Body
  fields : Assoc Json → Body

pub record Request : Type 0 where
  pub collection : Text
  pub id : Text
  -- The query parameters, empty where absent.
  pub limit : Text
  pub offset : Text
  pub body : Body
  -- The access token's subject.
  pub subject : Text
  -- What uuid.NewString gives, if it is called.
  pub new_id : Text

abbrev pub default_limit : ℕ
default_limit = 50

abbrev pub max_limit : ℕ
max_limit = 200

unfoldable pub parse_limit : Text → Sql Store Reply ℕ
unfolding atoi
parse_limit v = if v == [] then pure default_limit else do
  n ← or_raise (atoi v) (bad_limit v)
  guard (ltb 0 n) (bad_limit v)
  guard (leb n max_limit) (limit_over n)
  pure n

unfoldable pub parse_offset : Text → Sql Store Reply ℕ
unfolding atoi
parse_offset v = if v == [] then pure 0 else or_raise (atoi v) (bad_offset v)

unfoldable pub parse_pagination : Text → Text → Sql Store Reply (ℕ × ℕ)
unfolding parse_limit parse_offset
parse_pagination limit offset = do n ← parse_limit limit; m ← parse_offset offset; pure (n, m)

abbrev pub collection : Registry → Text → Sql Store Reply Collection
collection reg name = or_raise (lookup name reg) no_collection

abbrev pub authorize_op : Rule → Sql Store Reply Unit
authorize_op rule = guard (not (rule == rule_denied)) forbidden

-- What is wrong with a field of the body.
abbrev pub nested_in : Text → Json → Option Reply
nested_in k Json.nested = some (nested_field k)
nested_in k v = none

abbrev pub field_error : Collection → Text → Json → Option Reply
field_error col k v = if has_column col k then nested_in k v else some (unknown_field k)

abbrev pub or_next : Option Reply → Option Reply → Option Reply
or_next none rest = rest
or_next (some r) rest = some r

unfoldable pub body_error : Collection → Assoc Json → Option Reply
unfolding has_column
body_error col [] = none
body_error col ((k, v) ∷ body) = or_next (field_error col k v) (body_error col body)

abbrev pub raise_or : Assoc Json → Option Reply → Sql Store Reply (Assoc Json)
raise_or body none = pure body
raise_or body (some r) = raise r

unfoldable pub decode_body : Collection → Body → Sql Store Reply (Assoc Json)
unfolding body_error
decode_body col too_large = raise body_too_large
decode_body col malformed = raise bad_json
decode_body col null = pure []
decode_body col (fields body) = raise_or body (body_error col body)

abbrev pub stamp_owner : Collection → Text → Assoc Json → Assoc Json
stamp_owner col subject body =
    if col.owner_column == [] then body else put col.owner_column (Json.text subject) body

-- !has || v == nil || v == ""
abbrev pub is_unset : Option Json → Bool
is_unset none = true
is_unset (some Json.null) = true
is_unset (some (Json.text s)) = s == []
is_unset (some v) = false

abbrev pub stamp_key : Collection → Text → Assoc Json → Assoc Json
stamp_key col new_id body =
    if not col.pk_is_integer && is_unset (lookup col.pk_column body)
    then put col.pk_column (Json.text new_id) body
    else body

abbrev pub or_null : Option Json → Json
or_null none = Json.null
or_null (some v) = v

abbrev pub key_of : Collection → Json → Assoc Json → Json
key_of col last body = if col.pk_is_integer then last else or_null (lookup col.pk_column body)

-- What of a PATCH is left without the key and the owner.
abbrev pub mutable_fields : Collection → Assoc Json → Assoc Json
mutable_fields col body =
    let rest = remove col.pk_column body in
    if col.owner_column == [] then rest else remove col.owner_column rest

abbrev pub is_empty : Assoc Json → Bool
is_empty [] = true
is_empty (f ∷ body) = false

-- A Server: the engine, and whether it has a broker.
pub record Server : Type 0 where
  pub engine : Engine
  pub has_broker : Bool

abbrev pub event : Text → Collection → Option Text → Text → Event
event kind col row id = record { kind = kind; collection = col.name; row = row; id = id }

-- Whether a rule has the statement ask for the owner.
abbrev pub rule_scopes : Rule → Bool
rule_scopes rule = rule == rule_owner

module _ (sv : Server) where
  open sv use {engine}

  abbrev pub sent : Collection → Event → Text → List (Event × Text) → List (Event × Text)
  sent col ev owner_id log =
      if not sv.has_broker || col.read_rule == rule_denied then log else log ++ (ev, owner_id) ∷ []

  unfoldable pub publish : Collection → Event → Text → Sql Store Reply Unit
  publish col ev owner_id = effect (λ s. record s { published = sent col ev owner_id s.published })

  abbrev pub printed : Option Value → Text
  printed none = []
  printed (some Value.null) = []
  printed (some v) = engine.print v

  unfoldable pub owner_gate_value : Collection → Row → Text
  owner_gate_value col r =
      if not (col.read_rule == rule_owner) || col.owner_column == []
      then []
      else printed (lookup col.owner_column r)
