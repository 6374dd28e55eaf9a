-- ===== src/Fleet/Proxy/Headers.antt =====
-- fleet/src/mnemosyne_fleet/proxy.py: the headers that pass, in both directions.
use mnemosyne_inference.Prelude.{String, Bool, ◌&&◌, not, List, [], ◌∷◌, any_of, if◌then◌else◌}
use mnemosyne_inference.Prelude.Text.{codes, starts_with, same_codes, lower}
use mnemosyne_inference.Prelude.Dict.{put}
use mnemosyne_inference.Fleet.Proxy.Types.{Headers}

-- `key.lower() in names`, the names being in lower case.
unfoldable pub names_key : List String → String → Bool
names_key names key = any_of (λ n. same_codes (lower (codes key)) (codes n)) names

-- `key.lower().startswith(prefix)`
unfoldable pub has_prefix : String → String → Bool
has_prefix prefix key = starts_with (codes prefix) (lower (codes key))

abbrev pub request_header_denylist : List String
request_header_denylist =
    "authorization" ∷ "connection" ∷ "content-length" ∷ "content-encoding" ∷ "cookie" ∷ "host"
    ∷ "keep-alive" ∷ "proxy-authenticate" ∷ "proxy-authorization" ∷ "proxy-connection" ∷ "te"
    ∷ "trailer" ∷ "transfer-encoding" ∷ "upgrade" ∷ "x-api-key" ∷ "x-mnemosyne-error"
    ∷ "x-mnemosyne-fleet-route" ∷ []

abbrev pub response_header_denylist : List String
response_header_denylist =
    "connection" ∷ "content-length" ∷ "keep-alive" ∷ "proxy-authenticate" ∷ "proxy-authorization"
    ∷ "proxy-connection" ∷ "set-cookie" ∷ "te" ∷ "trailer" ∷ "transfer-encoding" ∷ "upgrade"
    ∷ "x-mnemosyne-error" ∷ []

unfoldable pub forwards : String → Bool
forwards key =
    not (names_key request_header_denylist key)
    && not (has_prefix "x-forwarded-" key)
    && not (has_prefix "x-mnemosyne-" key)

-- `{key: value for … if p(key)}` onto a dictionary: a later value replaces an earlier one.
unfoldable pub keep : (String → Bool) → Headers → Headers → Headers
keep p [] d = d
keep p ((k, v) ∷ hs) d = keep p hs (if p k then put k v d else d)

-- The headers of the request to the node.
unfoldable pub upstream_headers : (bearer route_id : String) → Headers → Headers
upstream_headers bearer route_id hs =
    put "X-Mnemosyne-Fleet-Route" route_id
      (put "Content-Type" "application/json" (put "Authorization" bearer (keep forwards hs [])))

unfoldable pub returns : (decoded : Bool) → String → Bool
returns decoded key =
    not (
      names_key
        (if decoded
          then "content-encoding" ∷ response_header_denylist
          else response_header_denylist)
        key)
    && not (has_prefix "x-mnemosyne-" key)

unfoldable pub response_headers : Headers → (decoded : Bool) → Headers
response_headers hs decoded = keep (returns decoded) hs []
