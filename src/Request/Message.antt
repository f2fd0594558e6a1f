-- ===== src/Request/Message.antt =====
-- The messages of src/protos/MvtkvsService.proto. A repeated field is a list.
use mvtx.Prelude.{ℕ, Bool, List}
use mvtx.Request.{Bytes}

pub record ReadRequest : Type 0 where
  pub tid : ℕ
  pub start_ts : ℕ
  pub key : ℕ

pub record ReadReply : Type 0 where
  pub value : Bytes
  pub status : Bool

pub record WriteRequest : Type 0 where
  pub tid : ℕ
  pub key : ℕ
  pub value : Bytes

pub record WriteReply : Type 0 where
  pub status : Bool

pub record PhaseOneCommitRequest : Type 0 where
  pub tid : ℕ
  pub start_ts : ℕ
  pub commit_ts : ℕ
  pub read_node : List ℕ
  pub write_node : List ℕ

pub record PhaseOneCommitReply : Type 0 where
  pub node : List ℕ
  pub vote : Bool

pub record PhaseTwoCommitRequest : Type 0 where
  pub tid : ℕ
  pub vote : Bool

pub record PhaseTwoCommitReply : Type 0 where
  pub node : List ℕ

-- A request message of any type, and a reply message.
pub data Message : Type 0 where
  read : ReadRequest → Message
  write : WriteRequest → Message
  p1c : PhaseOneCommitRequest → Message
  p2c : PhaseTwoCommitRequest → Message

pub data Reply : Type 0 where
  read : ReadReply → Reply
  write : WriteReply → Reply
  p1c : PhaseOneCommitReply → Reply
  p2c : PhaseTwoCommitReply → Reply
