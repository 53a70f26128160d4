-- ===== src/SocketIo/Adapter.antt =====
-- engine/src/core/socketio/adapter.rs: the trait `Adapter`, as the changes that its methods make.
-- What they answer is in SocketIo/Rooms and SocketIo/Redis.
pub mod Effects
pub mod Shares
pub mod Joint
mod Tests
use rpress.Common.{List, [], ◌∷◌, Str}
use rpress.SocketIo.Rooms
use rpress.SocketIo.Rooms.{RoomManager}
use rpress.SocketIo.Redis
use rpress.SocketIo.Redis.{RedisAdapter}

pub data AdapterCall (T : Type 0) : Type 0 where
  register_sender : Str → T → AdapterCall T
  unregister_sender : Str → AdapterCall T
  join : Str → Str → Str → AdapterCall T
  leave : Str → Str → Str → AdapterCall T
  leave_all : Str → AdapterCall T

module _ {T : Type 0} where
  -- The socket that a call is about.
  unfoldable pub socket_of : AdapterCall T → Str
  socket_of (register_sender socket_id tx) = socket_id
  socket_of (unregister_sender socket_id) = socket_id
  socket_of (join namespace room socket_id) = socket_id
  socket_of (leave namespace room socket_id) = socket_id
  socket_of (leave_all socket_id) = socket_id

  -- The methods of the manager in memory.
  unfoldable pub call_rooms : AdapterCall T → RoomManager T → RoomManager T
  call_rooms (register_sender socket_id tx) m = Rooms.register_sender socket_id tx m
  call_rooms (unregister_sender socket_id) m = Rooms.unregister_sender socket_id m
  call_rooms (join namespace room socket_id) m = Rooms.join namespace room socket_id m
  call_rooms (leave namespace room socket_id) m = Rooms.leave namespace room socket_id m
  call_rooms (leave_all socket_id) m = Rooms.leave_all socket_id m

  -- Those of a node over Redis.
  unfoldable pub call_redis : AdapterCall T → RedisAdapter T → RedisAdapter T
  call_redis (register_sender socket_id tx) node = Redis.register_sender socket_id tx node
  call_redis (unregister_sender socket_id) node = Redis.unregister_sender socket_id node
  call_redis (join namespace room socket_id) node = Redis.join namespace room socket_id node
  call_redis (leave namespace room socket_id) node = Redis.leave namespace room socket_id node
  call_redis (leave_all socket_id) node = Redis.leave_all socket_id node
