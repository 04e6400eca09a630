-- ===== src/Gen/Direct/Accepted.antt =====
-- `validateDirectCall` of internal/gen/manifest.go, where it finds nothing.
use sokel_plugin_sdk.Base.{
  Text, Option, none, some, List, [], ◌++◌, map, All, In, codes, trim_space, ◌⊎◌, ◌≡◌, ◌≢◌,
}
use sokel_plugin_sdk.Gen.Declaration.{FlatOp, CredentialDecl, InjectDecl}
use sokel_plugin_sdk.Gen.Problem.{Problem}
use sokel_plugin_sdk.Gen.Direct.{
  path_params, inject_vars, http_path, wire_name, attributes_of, inject_places,
}

-- Every placeholder of the path has an input that goes by its name.
abbrev pub IsFilled : FlatOp → Type 0
IsFilled fo =
    All (λ p. In p (map wire_name (attributes_of fo.decl.inputs))) (path_params (http_path fo.decl))

-- A rule for basic authentication has a user or a password, and another one a key and a value.
abbrev HasParts : InjectDecl → Type 0
HasParts it =
    ((it.place ≡ codes "basic") × ((it.user ≢ []) ⊎ (it.pass ≢ [])))
    ⊎ ((it.place ≢ codes "basic") × ((trim_space it.key ≢ []) × (it.value ≢ [])))

-- A rule has a known place and the parts of that place, refers to fields of the credential only, and
-- its value, user and password, put together, hold a reference.
abbrev IsGuarded : List Text → InjectDecl → Type 0
IsGuarded fields it =
    (In it.place inject_places × HasParts it)
    × (All (λ v. In v fields) (inject_vars it.key)
        × (All (λ v. In v fields) (inject_vars it.value)
            × (All (λ v. In v fields) (inject_vars it.user)
                × (All (λ v. In v fields) (inject_vars it.pass)
                    × (inject_vars (it.value ++ (it.user ++ it.pass)) ≢ [])))))

-- The rules of the credential, if there is one.
abbrev pub HasGuards : Option CredentialDecl → Type 0
HasGuards none = Unit
HasGuards (some c) = All (IsGuarded (map (λ a. a.name) (attributes_of c.fields))) c.inject
