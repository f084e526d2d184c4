-- ===== src/Lib.antt =====
-- The Go programs of Homeworld, modelled from their source. First its key system (platform/keysystem):
-- the keyserver, which holds the certificate authorities of a cluster and signs for accounts, and the
-- key client, which every node runs to keep its certificates and configuration. Then what stands
-- around it: the gateway for Kerberos users, the launchers of Kubernetes, the page that grants users
-- access to the cluster, and monitors.
--
-- A request comes in as HTTP (KeyApi); it is authenticated by a bootstrap token (Token) or a client
-- certificate (Authority), and is taken for an account (Account); its body is a batch of operations
-- (Operation), each of which uses a privilege of the account that acts then. Accounts, groups and
-- privileges are generated from the setup of the cluster (WorldConfig). Deployment joins the two
-- sides. The client's actions (Keyclient) send such requests, also as another user (Impersonation).
-- A Kerberos user's requests come through knc to the gateway (Keygateway), which impersonates the user.
-- On a node, the launchers (Kubernetes) start the services with the certificates that the key client
-- keeps. UserGrant is a page that gives a user with a certificate of another authority one for the cluster.
--
--   Token        platform/keysystem/keyserver/token and verifier/token.go: `ScopedToken`,
--                `TokenRegistry`, `TokenVerifier`. Interleaving has the steps of concurrent requests.
--   Authority    platform/keysystem/keyserver/authorities and config/config.go, with
--                platform/util/wraputil/pem.go (Pem) and platform/util/certutil/sign.go (Tls).
--   Util         platform/util/netutil/parseip.go: `ParseRemoteAddress`; Csr is csrutil/csr.go with
--                wraputil/ssh.go, Expiration is certutil/expiration.go, Environment is
--                osutil/environment.go, Substitution is strutil/substitute.go.
--   Account      platform/keysystem/keyserver/account and config/context.go. A `Privilege` is a Go
--                closure; here it is what the closure captures, and `invoke` is its body.
--   Operation    platform/keysystem/keyserver/operation/operation.go: `InvokeAPIOperationSet`.
--   KeyApi       platform/keysystem/keyserver/keyapi: `attemptAuthentication`, the handlers, `apiToHTTP`;
--                ServerCert is `GetValidServerCert`.
--   WorldConfig  platform/keysystem/worldconfig: Spire is spiresetup.go, Grants and Generate are
--                keyserver.go.
--   Keyclient    platform/keysystem/api (Target) and platform/keysystem/keyclient: State is state.go
--                with the actions keygen and bootstrap, Download, Hostname and Renewal are the other
--                actions, Converge is worldconfig/keyclient.go, Loop is actloop.go, and
--                Formats holds what the actions call of platform/util.
--   Keygateway   platform/keysystem/keygateway with api/config.go; Knc is api/knc, `KncServer`.
--   Keyreq       platform/keysystem/keyreq/keyreq.go: the command of administrators.
--   Kubernetes   platform/kubernetes: wrapper/wrap.go, with Launch and Kubelet for launch.go; Deploy is
--                platform/setup-queue and platform/kube-state-metrics.
--   UserGrant    platform/user-grant/grant.go, with platform/util/certutil/email.go (Email);
--                Loading is `LoadConfig`.
--   Monitor      gauges, and the loop over a map that sets them; Dns is platform/dns-monitor, Etcd is
--                platform/etcd-metrics-exporter.
--   FlannelMonitor  platform/flannel-monitor: common/common.go, with monitor (Cycle), collector
--                (Collector) and reflector (Reflector).
--   PullMonitor  platform/pull-monitor/pull-monitor: interact.go, with Cycle for pull-monitor.go.
--   Common       results with Go's errors and panics, maps, and lemmas; Tests has runs at concrete
--                inputs, of which Sample is a deployment.
--
-- State is passed on: an operation of the registry takes the tokens and returns them beside its
-- result, an operation of the client takes and returns its state and the world's, and the programs
-- around the key system take and return the world's (Common.Effects). Token.Ledger is the abstract view
-- of the registry: what a text is worth, without the map and the `sync.Once` values. Every definition is
-- total by structural recursion. Two loops end by what others do: that of the pull monitor around a
-- running container is for a number of rounds, which are enough if the container is seen to stop in
-- fewer polls, and that of the key client takes the values that `IsCancelled` returns in turn. Times and durations are numbers of nanoseconds. A map of Go is an
-- association list, whose order stands for the order of a `range`.
--
-- Parameters stand for what is not in the repository: the clock and the random source, encoding/pem,
-- crypto/x509, crypto/tls, crypto/sha256, encoding/base64, encoding/json, html/template, net, net/url,
-- strconv, golang.org/x/crypto/ssh, gopkg.in/yaml.v2, github.com/pkg/errors, go-multierror, net/http's
-- client, the Kubernetes API and client-go, CRI-O, the gauges of Prometheus, and the calls of the operating system. A theorem that
-- relies on one of them has what its documentation says as a hypothesis.
--
-- Not modelled: the start of listeners and of loops that run for ever (keyapi/keyserver.go, the main
-- functions), the remaining command lines, the generation of authorities, and auth-monitor, which
-- logs in at the nodes and sets gauges: these are input and output. What is logged is left out as well.
-- The request's dispatch has no redirects of net/http. A null entry among the nodes of a setup, at which
-- the source panics, and the error of `http.NewRequest` are left out.
pub mod Common
pub mod Token
pub mod Authority
pub mod Util
pub mod Account
pub mod Operation
pub mod KeyApi
pub mod WorldConfig
pub mod Deployment
pub mod Keyclient
pub mod Impersonation
pub mod Keygateway
pub mod Keyreq
pub mod Kubernetes
pub mod Monitor
pub mod FlannelMonitor
pub mod PullMonitor
pub mod UserGrant
pub mod Tests
