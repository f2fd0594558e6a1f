-- ===== src/Request.antt =====
-- src/Request.h: the kinds of requests and the structs that carry their arguments and results. A struct
-- that points to another one owns it here. A pointer to a string that may be null or not yet set is an
-- `Option`.
pub mod Message
use mvtx.Prelude.{ℕ, Bool, Option, List}

-- A `std::string`.
abbrev pub Bytes : Type 0
Bytes = List ℕ

pub data Request : Type 0 where
  tread twrite tp1c tp2c : Request

pub record ReadArgs : Type 0 where
  pub tid : ℕ
  pub start_ts : ℕ
  pub key : ℕ

pub record WriteArgs : Type 0 where
  pub tid : ℕ
  pub key : ℕ
  pub value : Bytes

pub record P1cArgs : Type 0 where
  pub tid : ℕ
  pub start_ts : ℕ
  pub commit_ts : ℕ
  pub read_nodes : List ℕ
  pub write_nodes : List ℕ

pub record P2cArgs : Type 0 where
  pub tid : ℕ
  pub vote : Bool

pub record RslReadArgs : Type 0 where
  pub read_args : ReadArgs
  pub value : Option Bytes

pub record RslWriteArgs : Type 0 where
  pub write_args : WriteArgs

pub record RslP1cArgs : Type 0 where
  pub p1c_args : P1cArgs
  pub vote : Bool

pub record RslP2cArgs : Type 0 where
  pub p2c_args : P2cArgs

pub record RpcReadArgs : Type 0 where
  pub read_args : ReadArgs
  pub value : Option Bytes
  pub status : Bool

pub record RpcWriteArgs : Type 0 where
  pub write_args : WriteArgs
  pub status : Bool

pub record RpcP1cArgs : Type 0 where
  pub p1c_args : P1cArgs
  pub nodes : List ℕ
  pub vote : Bool

pub record RpcP2cArgs : Type 0 where
  pub p2c_args : P2cArgs
  pub nodes : List ℕ

-- `void *args` with the request type that says what it points to: for a resolution client, and for RPC.
pub data RslArgs : Type 0 where
  read : RslReadArgs → RslArgs
  write : RslWriteArgs → RslArgs
  p1c : RslP1cArgs → RslArgs
  p2c : RslP2cArgs → RslArgs

pub data RpcArgs : Type 0 where
  read : RpcReadArgs → RpcArgs
  write : RpcWriteArgs → RpcArgs
  p1c : RpcP1cArgs → RpcArgs
  p2c : RpcP2cArgs → RpcArgs
