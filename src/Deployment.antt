-- ===== src/Deployment.antt =====
-- The keyserver with the configuration that it generates for itself: the requests of keyapi/api.go
-- under the accounts of worldconfig/keyserver.go.
use homeworld.Common.{
  String, ◌≡◌, sym, subst, ◌⊎◌, inl, inr, true, some, List, Bool-cases, Error, Result, ok,
}
use homeworld.Common.Dict.{Dict, AllValues-mono}
use homeworld.Token.{Tokens}
use homeworld.Authority.Crypto.{Ip}
use homeworld.Util.RemoteAddress.{parse_remote_address}
use homeworld.Account.{
  Privilege, tls_grant, ssh_grant, bootstrap, impersonate, configuration, fetch_key, Account,
  Context, Packages,
}
use homeworld.Operation.{Json}
use homeworld.Operation.Authorization.{Permitted}
use homeworld.Operation.Sequence.{KeepsAccount, Permitted-AllGranted}
use homeworld.KeyApi.{Request, Readings, serve}
use homeworld.KeyApi.Authentication.{Proves, ComesFrom, attempt_authentication_sound}
use homeworld.KeyApi.Requests.{serve_sound}
use homeworld.WorldConfig.Spire.{SpireNode, SpireSetup, is_supervisor}
use homeworld.WorldConfig.Grants.{Authorities}
use homeworld.WorldConfig.Generate.{System, configure}
use homeworld.WorldConfig.Confinement.{IsKerberos, IsNode, IsOrdinary}
use homeworld.WorldConfig.Accounts.{
  IsGenerated, configure-IsGenerated, account-cases, Permitted-cases,
}

IsOrdinary-KeepsAccount :
    (auth : Authorities) (node : SpireNode) (dns_name principal : String) (priv : Privilege)
    → IsOrdinary auth node dns_name principal priv
    → KeepsAccount priv
IsOrdinary-KeepsAccount auth node dns_name principal (impersonate group) h = h
IsOrdinary-KeepsAccount auth node dns_name principal (tls_grant _ _ _ _ _ _) h = tt
IsOrdinary-KeepsAccount auth node dns_name principal (ssh_grant _ _ _ _ _) h = tt
IsOrdinary-KeepsAccount auth node dns_name principal (bootstrap group lifespan) h = tt
IsOrdinary-KeepsAccount auth node dns_name principal (configuration _) h = tt
IsOrdinary-KeepsAccount auth node dns_name principal (fetch_key _) h = tt

-- A limited account is used from its address alone.
limited_from :
    (p : Packages) (wrap : String → Error → Error) (ctx : Context) (a : Account) (request : Request)
    {allowed : Ip}
    → a.limit_ip ≡ some allowed
    → ComesFrom p wrap ctx a request
    → (ip : Ip) × (parse_remote_address p.net request.remote_addr ≡ ok ip)
      × (p.net.ip_equal allowed ip ≡ true)
limited_from p wrap ctx a request limited (ip, address, inl free) = cc
limited_from p wrap ctx a request {allowed} limited (ip, address, inr (only, bound, equal)) =
    let same : only ≡ allowed = cc in
    (ip, address, subst (λ i. p.net.ip_equal i ip ≡ true) same equal)

-- What a batch of operations that a request had answered can be, if the request comes from `a`: `a`
-- is the account of a node of the setup, the request comes from the address of the node, and the
-- batch is permitted to `a` and ends as `b`.
pub record IsFromNode (p : Packages) (conf : SpireSetup) (ctx : Context) (request : Request)
    (a : Account) (ops : List (Dict String)) (b : Account) : Type 0 where
  pub node : IsNode conf a
  pub address :
      (allowed : Ip) × (ip : Ip) × (node.node.net_ip ≡ some allowed)
      × (parse_remote_address p.net request.remote_addr ≡ ok ip)
      × (p.net.ip_equal allowed ip ≡ true)
  pub permitted : Permitted ctx a ops b
  pub reach : (b ≡ a) ⊎ IsKerberos b
  pub confined : (is_supervisor node.node ≡ true) ⊎ (b ≡ a)

module _ (sys : System) (p : Packages) (wrap : String → Error → Error) where
  -- With a generated configuration, an API request that is answered with 200 comes from a principal
  -- that it proves to be, whose account is of a node of the setup, and from the address of this
  -- node. Its body is a list of operations that is permitted to this account. The account that acts
  -- at the end is the same or a Kerberos account, which cannot be used directly and can impersonate
  -- nobody; it is the same if the node is no supervisor.
  pub served :
      (conf : SpireSetup) {ctx : Context} (json : Json) (read : String → Result String)
      (t : Readings) (request : Request) (s : Tokens) {response : String}
      → configure sys conf ≡ ok ctx
      → request.path ≡ "/apirequest"
      → (serve p wrap ctx json read t request s).0 ≡ some (200, response)
      → (a : Account) × (b : Account) × (body : String) × (ops : List (Dict String)) × (request.body
          ≡ ok body)
        × (json.decode_operations body ≡ ok ops)
        × Proves p wrap ctx t.claim request s a.principal
        × IsFromNode p conf ctx request a ops b
  served conf {ctx} json read t request s made path h =
      let (a, authentic, (body, ops, results, has_body, decoded, (b, permitted), _, _)) =
        serve_sound p wrap ctx json read t request s path h in
      let (principal, proof, found, named, direct, from) =
        attempt_authentication_sound p wrap ctx t.claim request s authentic in
      let g = configure-IsGenerated sys conf made in
      let proves = subst (Proves p wrap ctx t.claim request s) (sym named) proof in
      elim (account-cases conf ctx g principal found) [
        | inl node ↦ (
          a,
          b,
          body,
          ops,
          has_body,
          decoded,
          proves,
          from_node ctx g request node from permitted,
        )
        | inr kerberos ↦ absurd (let never = kerberos.indirect in cc)
      ]
    where
      from_node :
          (ctx : Context)
          → IsGenerated conf ctx
          → (request : Request) → {a b : Account} → {ops : List (Dict String)} → IsNode conf a
          → ComesFrom p wrap ctx a request
          → Permitted ctx a ops b
          → IsFromNode p conf ctx request a ops b
      from_node ctx g request {a} {b} {ops} node from permitted =
          let (allowed, parsed, limited) = node.address in
          let (ip, address, equal) = limited_from p wrap ctx a request limited from in
          record {
            node = node;
            address = (allowed, ip, parsed, address, equal);
            permitted = permitted;
            reach = Permitted-cases conf ctx g node.scoped permitted;
            confined = elim (Bool-cases (is_supervisor node.node)) [
              | inl yes_sup ↦ inl yes_sup
              | inr other ↦
                  inr
                    (Permitted-AllGranted
                      (AllValues-mono a.privileges
                        (IsOrdinary-KeepsAccount node.authorities node.node a.principal a.principal)
                        (node.ordinary other))
                      permitted).0
            ];
          }
