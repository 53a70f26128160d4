-- ===== src/Server/Listener/Launch.antt =====
-- engine/src/lib.rs and engine/src/core/tls.rs: the ways to launch a server. `bind` tells whether
-- an address can be bound; the libraries for certificates are a parameter.
use rpress.Common.{
  Bool, true, false, Option, none, some, List, [], ◌∷◌, Str, codes, is_empty, if◌then◌else◌,
}
use rpress.Server.App.{Rpress}
use rpress.Server.Dispatch.{prepare_server}
use rpress.Server.Listener.{Server, start}

-- What rustls makes of the two files: the certificates, the key, and a configuration of both.
pub record TlsLibrary (C : Type 0) : Type 0 where
  pub open_file : Str → Option Str
  pub certs : Str → Option (List Str)
  pub private_key : Str → Option (Option Str)
  pub with_single_cert : List Str → Str → Option C

-- `RpressTlsConfig`: the configuration with its protocols, in the order of preference.
pub record TlsConfig (C : Type 0) : Type 0 where
  pub config : C
  pub alpn_protocols : List Str

pub data TlsError : Type 0 where
  cert_file : TlsError
  key_file : TlsError
  bad_certificates : TlsError
  bad_key : TlsError
  no_key : TlsError
  invalid_config : TlsError

pub data TlsResult (C : Type 0) : Type 0 where
  loaded : TlsConfig C → TlsResult C
  refused : TlsError → TlsResult C

abbrev pub both_protocols : List Str
both_protocols = codes "h2" ∷ codes "http/1.1" ∷ []

module _ {C : Type 0} (library : TlsLibrary C) where
  unfoldable pub with_key : List Str → Str → TlsResult C
  with_key cert_chain key = elim (library.with_single_cert cert_chain key) [
    | none ↦ refused invalid_config
    | some config ↦ loaded (record { config = config; alpn_protocols = both_protocols })
  ]

  unfoldable pub with_certs : List Str → Str → TlsResult C
  unfolding with_key
  with_certs cert_chain key_text = elim (library.private_key key_text) [
    | none ↦ refused bad_key
    | some none ↦ refused no_key
    | some (some key) ↦ with_key cert_chain key
  ]

  unfoldable pub from_pem : Str → Str → TlsResult C
  unfolding with_certs
  from_pem cert_path key_path = elim (library.open_file cert_path) [
    | none ↦ refused cert_file
    | some cert_text ↦ elim (library.open_file key_path) [
      | none ↦ refused key_file
      | some key_text ↦ elim (library.certs cert_text) [
        | none ↦ refused bad_certificates
        | some cert_chain ↦ with_certs cert_chain key_text
      ]
    ]
  ]

unfoldable pub from_config : {C : Type 0} → TlsConfig C → TlsConfig C
from_config c = record c {
  alpn_protocols = if is_empty c.alpn_protocols then both_protocols else c.alpn_protocols;
}

-- A server that runs, whether it speaks TLS, and whether it calls back first.
pub record Launched (W : Type 0) : Type 0 where
  pub server : Server W
  pub tls : Bool
  pub on_ready : Bool

pub data Launch (W : Type 0) : Type 0 where
  launched : Launched W → Launch W
  bind_failed : Launch W
  panicked : Launch W

module _ {W : Type 0} (captures : Str → Option (Str × Str)) (lower : Str → Str) where
  -- The routes are registered before the address is bound.
  unfoldable pub launch : Bool → Bool → Bool → Rpress W → W → Launch W
  launch bound tls on_ready app w = elim (prepare_server captures lower app) [
    | none ↦ panicked
    | some app' ↦
        if bound
        then launched (record { server = start app' w; tls = tls; on_ready = on_ready })
        else bind_failed
  ]

  unfoldable pub listen : (Str → Bool) → Str → Rpress W → W → Launch W
  unfolding launch
  listen bind addr app w = launch (bind addr) false false app w

  unfoldable pub listen_with : (Str → Bool) → Str → Rpress W → W → Launch W
  unfolding launch
  listen_with bind addr app w = launch (bind addr) false true app w

  unfoldable pub server_with_listener : Rpress W → W → Launch W
  unfolding launch
  server_with_listener app w = launch true false false app w

  unfoldable pub listen_tls : (Str → Bool) → Str → Rpress W → W → Launch W
  unfolding launch
  listen_tls bind addr app w = launch (bind addr) true false app w

  unfoldable pub listen_tls_with : (Str → Bool) → Str → Rpress W → W → Launch W
  unfolding launch
  listen_tls_with bind addr app w = launch (bind addr) true true app w

  unfoldable pub server_with_listener_tls : Rpress W → W → Launch W
  unfolding launch
  server_with_listener_tls app w = launch true true false app w
