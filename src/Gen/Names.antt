-- ===== src/Gen/Names.antt =====
-- internal/gen/types.go and manifest.go: the Go names that the generator derives.
pub mod Collisions
use sokel_plugin_sdk.Base.{
  ℕ, Text, Bool, ◌||◌, none, some, List, [], ◌∷◌, ◌++◌, ◌+◌, ◌-◌, map, is_empty, ◌==◌, same, codes,
  if◌then◌else◌, Map, lookup,
}
use sokel_plugin_sdk.Gen.Strings.{to_lower, split}
use sokel_plugin_sdk.Gen.Patterns.{is_upper_letter, is_lower_letter}

-- `initialisms`
abbrev initialisms : Map Text
initialisms =
    (codes "api", codes "API")
    ∷ (codes "ascii", codes "ASCII")
    ∷ (codes "cpu", codes "CPU")
    ∷ (codes "css", codes "CSS")
    ∷ (codes "db", codes "DB")
    ∷ (codes "dns", codes "DNS")
    ∷ (codes "eof", codes "EOF")
    ∷ (codes "guid", codes "GUID")
    ∷ (codes "html", codes "HTML")
    ∷ (codes "http", codes "HTTP")
    ∷ (codes "https", codes "HTTPS")
    ∷ (codes "id", codes "ID")
    ∷ (codes "ids", codes "IDs")
    ∷ (codes "ip", codes "IP")
    ∷ (codes "json", codes "JSON")
    ∷ (codes "lhs", codes "LHS")
    ∷ (codes "llm", codes "LLM")
    ∷ (codes "md5", codes "MD5")
    ∷ (codes "ok", codes "OK")
    ∷ (codes "os", codes "OS")
    ∷ (codes "pid", codes "PID")
    ∷ (codes "qps", codes "QPS")
    ∷ (codes "ram", codes "RAM")
    ∷ (codes "rhs", codes "RHS")
    ∷ (codes "rpc", codes "RPC")
    ∷ (codes "sha", codes "SHA")
    ∷ (codes "sla", codes "SLA")
    ∷ (codes "smtp", codes "SQL")
    ∷ (codes "sql", codes "SQL")
    ∷ (codes "ssh", codes "SSH")
    ∷ (codes "tcp", codes "TCP")
    ∷ (codes "tls", codes "TLS")
    ∷ (codes "ttl", codes "TTL")
    ∷ (codes "udp", codes "UDP")
    ∷ (codes "ui", codes "UI")
    ∷ (codes "uid", codes "UID")
    ∷ (codes "uuid", codes "UUID")
    ∷ (codes "uri", codes "URI")
    ∷ (codes "url", codes "URL")
    ∷ (codes "utf8", codes "UTF8")
    ∷ (codes "vm", codes "VM")
    ∷ (codes "xml", codes "XML")
    ∷ (codes "xsrf", codes "XSRF")
    ∷ []

-- The body of the loop over the parts.
unfoldable pub export_part : Text → Text
unfolding to_lower is_lower_letter
export_part [] = []
export_part (c ∷ s) = elim (lookup (to_lower (c ∷ s)) initialisms) [
  | some up ↦ up
  | none ↦ (if is_lower_letter c then c - 32 else c) ∷ s
]

unfoldable pub export_parts : List Text → Text
export_parts [] = []
export_parts (p ∷ ps) = export_part p ++ export_parts ps

unfoldable pub export_name : Text → Text
unfolding export_parts split
export_name s =
    let name = export_parts (split b'_' s) in if is_empty name then codes "Field" else name

-- `capTypePrefix`
unfoldable pub cap_type_prefix : Text → Text
cap_type_prefix s = map (λ c. if c == b'/' || (c == b'.' || c == b'-') then b'_' else c) s

unfoldable pub is_int_go_type : Text → Bool
is_int_go_type s =
    same s (codes "int")
    || (same s (codes "int8")
        || (same s (codes "int16")
            || (same s (codes "int32")
                || (same s (codes "int64")
                    || (same s (codes "uint")
                        || (same s (codes "uint8")
                            || (same s (codes "uint16")
                                || (same s (codes "uint32") || same s (codes "uint64")))))))))
