-- ===== src/Authority.antt =====
-- Authorities: platform/keysystem/keyserver/authorities/authorities.go, and how the configuration
-- loads them, platform/keysystem/keyserver/config/config.go.
pub mod Crypto
pub mod Pem
pub mod Tls
pub mod Ssh
pub mod Certificates
use Prim.Native.String.{◌++◌ as str_append}
use homeworld.Common.{
  ◌+◌, ◌-◌, ◌/◌, String, ap, not, ◌++◌, ◌==◌, message, Result, ok, panic, ◌>>=◌, ◌>>◌, guard,
}
use Crypto.{X509, SshLib}
use Tls.{TlsAuthority, load_tls_authority, get_public_key}
use Ssh.{SshAuthority, load_ssh_authority, get_public_ssh_key}

pub data Authority : Type 0 where
  tls : TlsAuthority → Authority
  ssh : SshAuthority → Authority

unfoldable pub public_key : Authority → String
unfolding get_public_key get_public_ssh_key
public_key (tls t) = get_public_key t
public_key (ssh d) = get_public_ssh_key d

pub data AuthorityType : Type 0 where
  invalid_authority_type tls_authority_type ssh_authority_type : AuthorityType

pub record ConfigAuthority : Type 0 where
  pub kind : AuthorityType
  pub name : String

abbrev pub tls_authority : String → ConfigAuthority
tls_authority name = record { kind = tls_authority_type; name = name }

abbrev pub ssh_authority : String → ConfigAuthority
ssh_authority name = record { kind = ssh_authority_type; name = name }

filenames_of : AuthorityType → String → Result (String × String)
filenames_of tls_authority_type name = ok (str_append name ".key", str_append name ".pem")
filenames_of ssh_authority_type name = ok (name, str_append name ".pub")
filenames_of invalid_authority_type name = panic "invalid authority type in Filenames"

unfoldable pub filenames : ConfigAuthority → Result (String × String)
unfolding filenames_of
filenames t = filenames_of t.kind t.name

module _ (x : X509) (lib : SshLib) where
  load_kind : AuthorityType → String → String → Result Authority
  load_kind tls_authority_type keydata certdata = do
    t ← load_tls_authority x keydata certdata
    ok (tls t)
  load_kind ssh_authority_type keydata certdata = do
    d ← load_ssh_authority lib keydata certdata
    ok (ssh d)
  load_kind invalid_authority_type keydata certdata =
      panic "invalid authority type in ConfigAuthority.Load"

  -- `read` is `ioutil.ReadFile` under `path.Join` of the directory and the name.
  unfoldable pub load :
      (String → String → Result String) → ConfigAuthority → String → Result Authority
  unfolding filenames load_kind
  load read a dir = do
    guard (not (dir == "")) (message "empty directory path")
    (keyfile, certfile) ← filenames a
    keydata ← read dir keyfile
    certdata ← read dir certfile
    load_kind a.kind keydata certdata
