-- ===== src/SocketIo/Server/Setup.antt =====
-- engine/src/core/socketio/mod.rs: how an application configures the server and its namespaces.
use rpress.Common.{Str, codes}
use rpress.SocketIo.Sessions.{default_config}
use rpress.SocketIo.Server
use rpress.SocketIo.Server.{Io, with_config, set_connection_handler}

-- `NamespaceBuilder`, which shares the server with the one that it was taken from: its methods take
-- and give the server.
pub record NamespaceBuilder : Type 0 where
  pub namespace : Str

-- `RpressIo::of`
unfoldable pub builder_of : Str → NamespaceBuilder
builder_of namespace = record { namespace = namespace }

module _ {V N : Type 0} where
  -- `RpressIo::new`
  unfoldable pub new_io : Io V N
  unfolding with_config
  new_io = with_config default_config

  -- `RpressIo::on_connection`
  unfoldable pub on_default_connection : N → Io V N → Io V N
  unfolding builder_of set_connection_handler
  on_default_connection handler io =
      set_connection_handler (builder_of (codes "/")).namespace handler io

  -- `RpressIo::use_auth`
  unfoldable pub use_default_auth : N → Io V N → Io V N
  unfolding builder_of Server.use_auth
  use_default_auth handler io = Server.use_auth (builder_of (codes "/")).namespace handler io
