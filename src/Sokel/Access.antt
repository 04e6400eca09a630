-- ===== src/Sokel/Access.antt =====
-- sokel/discover.go, sokel/protocol.go and the start of sokel/transport_nats.go: how a replica gets
-- the address and the credentials of its transport.
pub mod Delay
pub mod Enrollment
pub mod Usable
use sokel_plugin_sdk.Base.{
  ℕ, zero, suc, ◌+◌, ◌*◌, min, Text, codes, same, Bool, true, false, not, ◌&&◌, ◌||◌, Option, none,
  some, List, [], ◌∷◌, ◌++◌, Result, ok, err, ◌>>=◌, ltb, leb, ◌==◌, is_empty, ℤ, pos, negsuc,
  trim_space, trim_right, has_prefix, if◌then◌else◌,
}

-- `access`
pub record Access : Type 0 where
  pub url : Text
  pub user : Text
  pub pass : Text
  pub subject : Text
  pub ca : Text
  pub inbox_prefix : Text
  pub min_protocol : ℤ
  pub token : Text
  pub access_token : Text

pub data AccessError : Type 0 where
  no_transport : Text → AccessError
  http_status : Text → ℕ → Text → AccessError
  calling : Text → Text → AccessError
  not_json : Text → AccessError
  broker_address : Text → AccessError
  invalid_endpoint : Text → AccessError
  bad_bundle : Text → AccessError
  incomplete_bundle : AccessError
  no_credentials : AccessError

unfoldable pub platform_url : Text → Result AccessError Text
platform_url endpoint =
    let ep = trim_space endpoint in
    if has_prefix ep (codes "http://") || has_prefix ep (codes "https://")
    then ok (trim_right (λ c. c == b'/') ep)
    else if has_prefix ep (codes "nats://") || has_prefix ep (codes "tls://")
    then err (broker_address ep)
    else err (invalid_endpoint endpoint)

-- The answer to a request: a network failure, or a status and a body.
pub data HttpAnswer : Type 0 where
  unreachable : Text → HttpAnswer
  answer : ℕ → Text → HttpAnswer

or_not_json : {A : Type 0} → Result Text A → Result AccessError A
or_not_json (ok a) = ok a
or_not_json (err t) = err (not_json t)

-- `do`; `decode` is the parse of the body.
unfoldable pub fetch :
    {A : Type 0} → (Text → Result Text A) → Text → HttpAnswer → Result AccessError A
unfolding or_not_json
fetch decode url (unreachable t) = err (calling url t)
fetch decode url (answer code body) =
    if code == 503
    then err (no_transport (trim_space body))
    else if not (code == 200)
    then err (http_status url code (trim_space body))
    else or_not_json (decode body)

-- The body of the answers of `/connect-info` and of `/plugins/enroll`.
pub record ConnectInfo : Type 0 where
  pub token : Text
  pub nats : Access
  pub degraded : Bool
  pub detail : Text

-- The platform: what it answers at a URL to a bearer, and how its bodies are read.
pub record Platform : Type 0 where
  pub get : Text → Text → HttpAnswer
  pub post : Text → Text → Text → HttpAnswer
  pub decode : Text → Result Text ConnectInfo

unfoldable pub discover_access : Platform → Text → Text → Result AccessError Access
unfolding platform_url fetch
discover_access pl endpoint token = do
  base ← platform_url endpoint
  let url = base ++ codes "/api/v1/connect-info"
  info ← fetch pl.decode url (pl.get url token)
  if is_empty info.nats.url then err (no_transport []) else ok info.nats

unfoldable pub enroll_access : Platform → Text → Text → Text → Result AccessError Access
unfolding platform_url fetch
enroll_access pl endpoint key plugin = do
  base ← platform_url endpoint
  let url = base ++ codes "/api/v1/plugins/enroll"
  out ← fetch pl.decode url (pl.post url key plugin)
  if is_empty out.token || is_empty out.nats.url
      then err (no_transport out.detail)
      else ok (record out.nats { token = out.token })

abbrev pub wire_protocol : ℕ
wire_protocol = 2

exceeds : ℤ → ℕ → Bool
exceeds (pos n) m = ltb m n
exceeds (negsuc n) m = false

-- Whether the platform's minimum is above what this SDK speaks.
unfoldable check_protocol : Access → Option ℤ
unfolding exceeds
check_protocol acc = if exceeds acc.min_protocol wire_protocol then some acc.min_protocol else none

-- In seconds.
abbrev retry_base : ℕ
retry_base = 8

abbrev pub retry_ceiling : ℕ
retry_ceiling = 300

-- The loop of `enrollRetryDelay`, with the rounds left.
unfoldable pub doubled : ℕ → ℕ → ℕ
doubled zero d = d
doubled (suc n) d = elim (ltb d retry_ceiling) [ true ↦ doubled n (d * 2) | false ↦ d ]

-- `errors.As` for the type `httpStatusError`, and the test of its code.
unfoldable pub is_client_error : AccessError → Bool
is_client_error (http_status url code msg) = leb 400 code && ltb code 500
is_client_error _ = false

unfoldable pub enroll_retry_delay : AccessError → ℕ → ℕ
unfolding is_client_error
enroll_retry_delay e attempt =
    if is_client_error e then min (doubled attempt retry_base) retry_ceiling else retry_base

-- What `resolveAccess` sets in the plugin, and the waits between its attempts.
pub record Resolved : Type 0 where
  pub access : Access
  pub token : Text
  pub managed : Bool
  pub waits : List ℕ

abbrev incomplete : Access → Bool
incomplete acc =
    is_empty acc.url || is_empty acc.user || is_empty acc.pass || is_empty acc.access_token

from_bundle : (Text → Result Text Access) → Text → Result AccessError Resolved
from_bundle decode raw = elim (decode raw) [
  | err t ↦ err (bad_bundle t)
  | ok acc ↦
      if incomplete acc
      then err incomplete_bundle
      else ok (record {
        access = record acc { token = acc.access_token };
        token = acc.access_token;
        managed = false;
        waits = [];
      })
]

-- The enrollment loop: `enroll n` is what attempt `n` gives. `none` means that the fuel ran out.
unfoldable pub enroll_loop : (ℕ → Result AccessError Access) → ℕ → ℕ → List ℕ → Option Resolved
enroll_loop enroll zero attempt waits = none
enroll_loop enroll (suc fuel) attempt waits = elim (enroll attempt) [
  | ok acc ↦ some (record { access = acc; token = acc.token; managed = true; waits = waits })
  | err e ↦ enroll_loop enroll fuel (suc attempt) (waits ++ enroll_retry_delay e attempt ∷ [])
]

-- The environment variables `SOKEL_ACCESS` and `SOKEL_DEPLOY_KEY`, with the configuration.
pub record Setting : Type 0 where
  pub bundle : Text
  pub deploy_key : Text
  pub endpoint : Text
  pub token : Text
  pub name : Text

kept_token : Text → Access → Resolved
kept_token token acc = record { access = acc; token = token; managed = false; waits = [] }

-- `platform n` is the platform at attempt `n`.
unfoldable pub resolve_access :
    (Text → Result Text Access)
    → (ℕ → Platform)
    → ℕ
    → Setting
    → Option (Result AccessError Resolved)
unfolding from_bundle kept_token
resolve_access decode platform fuel s =
    if not (is_empty s.bundle)
    then some (from_bundle decode s.bundle)
    else if not (is_empty s.token)
    then some
        (do acc ← discover_access (platform 0) s.endpoint s.token; ok (kept_token s.token acc))
    else if is_empty s.deploy_key
    then some (err no_credentials)
    else elim (enroll_loop (λ n. enroll_access (platform n) s.endpoint s.deploy_key s.name) fuel 0
        []) [ none ↦ none | some r ↦ some (ok r) ]
