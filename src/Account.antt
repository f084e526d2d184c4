-- ===== src/Account.antt =====
-- Accounts, groups and privileges: platform/keysystem/keyserver/account/account.go and
-- account/privileges.go, with the context of platform/keysystem/keyserver/config/context.go.
-- A privilege is a Go closure; here it is the data that the closure captures, and `invoke` is its
-- body. A privilege captures a group by pointer, and the group grows after that, so that a
-- privilege names its group and the context holds the members.
use homeworld.Common.{
  ℕ, String, ◌≡◌, Bool, true, false, Option, none, some, List, [], ◌∷◌, arith, ◌==◌, eq_iff,
  if◌then◌else◌, message, Result, ok, err, panic,
}
use homeworld.Common.Dict.{Dict, lookup}
use homeworld.Token.{Encoding, Moment, Tokens, grant_token}
use homeworld.Authority.Crypto.{X509, Net, Ip, SshLib, Instant}
use homeworld.Authority.{Authority}
use homeworld.Authority.Tls.{TlsAuthority, sign, get_private_key}
use homeworld.Authority.Ssh.{SshAuthority, sign_ssh}

pub data GroupId : Type 0 where
  nodes kerberos_accounts : GroupId

pub data Privilege : Type 0 where
  -- the authority, `ishost`, the lifespan, the common name, the host names, the organizations
  tls_grant : TlsAuthority → Bool → ℕ → String → List String → List String → Privilege
  -- the authority, `ishost`, the lifespan, the key id, the principals
  ssh_grant : SshAuthority → Bool → ℕ → String → List String → Privilege
  bootstrap : GroupId → ℕ → Privilege
  impersonate : GroupId → Privilege
  configuration : String → Privilege
  fetch_key : TlsAuthority → Privilege

pub record Account : Type 0 where
  pub principal : String
  pub disable_direct_auth : Bool
  pub limit_ip : Option Ip
  pub privileges : Dict Privilege

-- `Group.HasMember`, over `AllMembers`
unfoldable pub has_member : List Account → String → Bool
has_member [] user = false
has_member (member ∷ members) user =
    if member.principal == user then true else has_member members user

pub record Context : Type 0 where
  pub authorities : Dict Authority
  pub accounts : Dict Account
  pub authentication_authority : TlsAuthority
  pub cluster_ca : TlsAuthority
  pub static_files : Dict String
  pub keyserver_dns : String
  pub members : GroupId → List Account

found_account : String → Option Account → Result Account
found_account principal none = err (message "cannot find account for principal %s")
found_account principal (some ac) =
    if ac.principal == principal then ok ac else err (message "mismatched principal during lookup")

unfoldable pub get_account : Context → String → Result Account
unfolding found_account
get_account ctx principal = found_account principal (lookup principal ctx.accounts)

-- The account that is found has the principal that was asked for.
pub principal-get_account :
    (ctx : Context) (principal : String) {ac : Account}
    → get_account ctx principal ≡ ok ac
    → ac.principal ≡ principal
unfolding get_account
principal-get_account ctx principal {ac} h = ground (arith, eq_iff ac.principal principal)

-- The packages that the source calls.
pub record Packages : Type 0 where
  pub x509 : X509
  pub net : Net
  pub ssh : SshLib
  pub encoding : Encoding

-- What one operation may read of the clock and the random source.
pub record Reading : Type 0 where
  pub moment : Moment
  pub instant : Instant

-- What an operation may change: `OperationContext.Account`, and the token registry.
pub record Session : Type 0 where
  pub account : Option Account
  pub tokens : Tokens

module _ (p : Packages) (ctx : Context) where
  bootstrap_privilege : List Account → ℕ → Reading → String → Session → Result String × Session
  bootstrap_privilege allowed lifespan r principal s =
      if has_member allowed principal
      then (let (result, tokens) = grant_token p.encoding principal lifespan r.moment s.tokens in
          (result, record s { tokens = tokens }))
      else (err (message "principal not allowed to be bootstrapped: %s"), s)

  become : String → Session → Result Account → Result String × Session
  become new_principal s (ok account) =
      if account.principal == new_principal
      then (ok "", record s { account = some account })
      else (err (message "wrong account returned"), s)
  become new_principal s (err e) = (err e, s)
  become new_principal s (panic t) = (panic t, s)

  impersonate_privilege : List Account → String → Session → Result String × Session
  unfolding become
  impersonate_privilege scope new_principal s =
      if has_member scope new_principal
      then become new_principal s (get_account ctx new_principal)
      else (err (message "attempt to impersonate outside of allowed scope"), s)

  configuration_privilege : String → String → Result String
  configuration_privilege contents request =
      if request == ""
      then ok contents
      else err (message "expected empty request to configuration endpoint")

  fetch_key_privilege : TlsAuthority → String → Result String
  fetch_key_privilege static request =
      if request == ""
      then ok (get_private_key static)
      else err (message "expected empty request to fetch-key endpoint")

  -- The body of the closure that the privilege is.
  unfoldable pub invoke : Reading → Privilege → String → Session → Result String × Session
  unfolding bootstrap_privilege impersonate_privilege configuration_privilege fetch_key_privilege
  invoke r (tls_grant tauth ishost lifespan commonname dnsnames organizations) request s = (
    sign p.net p.x509 r.instant tauth request ishost lifespan commonname dnsnames organizations,
    s,
  )
  invoke r (ssh_grant tauth ishost lifespan keyid principals) request s =
      (sign_ssh p.ssh p.encoding r.instant tauth request ishost lifespan keyid principals, s)
  invoke r (bootstrap group lifespan) principal s =
      bootstrap_privilege (ctx.members group) lifespan r principal s
  invoke r (impersonate group) new_principal s =
      impersonate_privilege (ctx.members group) new_principal s
  invoke r (configuration contents) request s = (configuration_privilege contents request, s)
  invoke r (fetch_key static) request s = (fetch_key_privilege static request, s)
