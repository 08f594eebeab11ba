-- ===== src/Rpc/ServerTraits.antt =====
-- protosocket-rpc/src/server/server_traits.rs: what a server implements for a connection.
use protosocket.Prelude.{Bool}

-- `RpcKind`
pub data RpcKind (F S : Type 0) : Type 0 where
  unary : F → RpcKind F S
  streaming : S → RpcKind F S
  cancelled : RpcKind F S

-- `ConnectionService`
pub record ConnectionService (C F S I : Type 0) : Type 0 where
  pub new_rpc : C → I → C × RpcKind F S
  pub poll : C → C × Bool
