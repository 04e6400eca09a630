-- ===== src/Tests/AccessTests.antt =====
-- Access to the platform and the watchdog of the connection.
use sokel_plugin_sdk.Base.{
  ℕ, zero, suc, ◌<◌, has_prefix, trim_space, Text, codes, true, false, none, some, [], ◌∷◌, Result,
  ok, err, ◌≡◌, ◌≢◌, inl, inr, refl, arith, pos,
}
use sokel_plugin_sdk.Sokel.Access.{
  Access, AccessError, http_status, calling, unreachable, answer, ConnectInfo, Platform, Setting,
  Resolved, platform_url, fetch, enroll_access, enroll_loop, resolve_access,
}
use sokel_plugin_sdk.Sokel.Access.Enrollment.{waits_from, resolve_access-enrolls}
use sokel_plugin_sdk.Sokel.Access.Usable.{IsUsable, resolve_access-IsUsable}
use sokel_plugin_sdk.Sokel.Watchdog.{other, Tick, watch_all}
use sokel_plugin_sdk.Sokel.Watchdog.Exits.{Moved, watch_all-Moved}

abbrev refused : AccessError
refused = http_status (codes "https://sokel/api/v1/plugins/enroll") 404 (codes "no key")

abbrev broker : Access
broker = record {
  url = codes "nats://n1";
  user = codes "u";
  pass = codes "p";
  subject = codes "s";
  ca = [];
  inbox_prefix = [];
  min_protocol = pos 2;
  token = codes "skp";
  access_token = [];
}

abbrev no_bundle : Text → Result Text Access
no_bundle t = err t

abbrev info : ConnectInfo
info = record { token = codes "skp"; nats = broker; degraded = false; detail = [] }

-- The platform answers 404 twice, then enrolls.
abbrev platform_at : ℕ → Platform
platform_at n = record {
  get = λ url token. unreachable (codes "refused");
  post = λ url key plugin. elim n [
    | zero ↦ answer 404 (codes "no key")
    | suc m ↦ elim m [ zero ↦ answer 404 (codes "no key") | suc _ ↦ answer 200 [] ]
  ];
  decode = λ t. ok info;
}

abbrev setting : Setting
setting = record {
  bundle = [];
  deploy_key = codes "skd";
  endpoint = codes "https://sokel";
  token = [];
  name = codes "demo";
}

answers : Unit {0}
unfolding has_prefix trim_space platform_url fetch enroll_access enroll_loop resolve_access
answers = tt

abbrev why_refused : ℕ → AccessError
why_refused n = refused

refused_twice :
    (i : ℕ)
    → i < 2
    → enroll_access (platform_at i) setting.endpoint setting.deploy_key setting.name
      ≡ err (why_refused i)
unfolding answers
refused_twice zero h = refl
refused_twice (suc zero) h = refl
refused_twice (suc (suc n)) h = absurd (omega arith)

enrolled_third :
    enroll_access (platform_at 2) setting.endpoint setting.deploy_key setting.name ≡ ok broker
unfolding answers
enrolled_third = refl

resolve_access-enrolls_example :
    resolve_access no_bundle platform_at 5 setting
    ≡ some (
        ok (record {
          access = broker;
          token = codes "skp";
          managed = true;
          waits = waits_from why_refused 2 0;
        }))
resolve_access-enrolls_example =
    resolve_access-enrolls no_bundle platform_at 5 setting why_refused 2 broker refl refl (λ e. cc)
      (omega arith) refused_twice enrolled_third

abbrev enrolled : Resolved
enrolled = record {
  access = broker;
  token = codes "skp";
  managed = true;
  waits = waits_from why_refused 2 0;
}

resolve_access-IsUsable_example : IsUsable enrolled
resolve_access-IsUsable_example =
    resolve_access-IsUsable no_bundle platform_at 5 setting enrolled resolve_access-enrolls_example

abbrev elsewhere : Result AccessError Access
elsewhere = ok (record broker { url = codes "tls://n2" })

abbrev here : Text
here = codes "nats://n1"

elsewhere-Moved : Moved elsewhere here
elsewhere-Moved = inr (record broker { url = codes "tls://n2" }, refl, λ e. cc, λ e. cc)

abbrev silent : ℕ → Tick
silent now = record { now = now; status = other; discovered = err (calling [] (codes "refused")) }

silent-stays : (now : ℕ) → Moved (err (calling [] (codes "refused"))) here → ⊥
silent-stays now (inl (detail, e)) = cc
silent-stays now (inr (fresh, e, _, _)) = cc

watch_all-Moved_example :
    watch_all here
      (some 10)
      (silent 25 ∷ record { now = 70; status = other; discovered = elsewhere } ∷ [])
    ≢ none
watch_all-Moved_example =
    watch_all-Moved here 10 (silent 25 ∷ [])
      (record { now = 70; status = other; discovered = elsewhere }) ((λ e. cc), tt) (λ e. cc)
      (omega arith) elsewhere-Moved
