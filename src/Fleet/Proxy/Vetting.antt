-- ===== src/Fleet/Proxy/Vetting.antt =====
-- fleet/src/mnemosyne_fleet/proxy.py: what the headers of a request to a node can be.
use mnemosyne_inference.Prelude.{String, ◌≡◌, false, ◌⊎◌}
use mnemosyne_inference.Prelude.Text.{codes, starts_with, same_codes, lower}
use mnemosyne_inference.Prelude.Distinct.{In}
use mnemosyne_inference.Fleet.Proxy.Types.{Headers}

-- The name, in any case, is not `name`.
abbrev pub IsNotNamed : String → String → Type 0
IsNotNamed key name = same_codes (lower (codes key)) (codes name) ≡ false

-- No header of the connection, no credential, none of the proxy's or the fleet's.
pub record IsPassed (key : String) : Type 0 where
  no_authorization : IsNotNamed key "authorization"
  no_connection : IsNotNamed key "connection"
  no_length : IsNotNamed key "content-length"
  no_encoding : IsNotNamed key "content-encoding"
  no_cookie : IsNotNamed key "cookie"
  no_host : IsNotNamed key "host"
  no_keep_alive : IsNotNamed key "keep-alive"
  no_proxy_authenticate : IsNotNamed key "proxy-authenticate"
  no_proxy_authorization : IsNotNamed key "proxy-authorization"
  no_proxy_connection : IsNotNamed key "proxy-connection"
  no_te : IsNotNamed key "te"
  no_trailer : IsNotNamed key "trailer"
  no_transfer_encoding : IsNotNamed key "transfer-encoding"
  no_upgrade : IsNotNamed key "upgrade"
  no_api_key : IsNotNamed key "x-api-key"
  no_forwarded : starts_with (codes "x-forwarded-") (lower (codes key)) ≡ false
  no_fleet : starts_with (codes "x-mnemosyne-") (lower (codes key)) ≡ false

-- A header of the gateway, or one of the client's, with the client's value.
abbrev pub IsVetted : (bearer route_id : String) → Headers → String × String → Type 0
IsVetted bearer route_id hs (k, v) =
    ((k ≡ "Authorization") × (v ≡ bearer))
    ⊎ (((k ≡ "Content-Type") × (v ≡ "application/json"))
        ⊎ (((k ≡ "X-Mnemosyne-Fleet-Route") × (v ≡ route_id)) ⊎ (In (k, v) hs × IsPassed k)))
