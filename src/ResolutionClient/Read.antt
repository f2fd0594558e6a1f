-- ===== src/ResolutionClient/Read.antt =====
-- A read of src/SimpleResolutionClient.cc through src/GRPCClient.cc.
use mvtx.Prelude.{
  ℕ, ◌≡◌, refl, ◌∙◌, Bool, true, false, ◌&&◌, none, some, inl, inr, List, [], ◌∷◌, ◌==◌, ==_iff,
  arith, Bool-cases, Option-cases,
}
use mvtx.Prelude.Map
use mvtx.Prelude.Map.{Map, find-erase}
use mvtx.Prelude.Set
use mvtx.Prelude.Run.{Run, ok, fault, ◌>>=◌}
use mvtx.Request.{RslReadArgs, RpcArgs, Bytes}
use mvtx.Request.Message.{ReadReply}
use mvtx.GrpcClient
use mvtx.GrpcClient.{
  Network, Called, GrpcClient, Replied, async_rpc, wait_async_reply, assign_value, make_stub,
  make_read_request,
}
use mvtx.ResolutionClient.{
  RpcClient, ResolutionClient, Uninitialised, default_address, find_addresses, invalidate_addresses,
  look_up_again, take_read, request_read,
}

-- The gRPC client as the RPC client of a resolution client.
abbrev as_replied : {N : Type 0} → Run (Replied N) → Run (Bool × RpcArgs × (GrpcClient × N))
as_replied m = do r ← m; ok (r.res, r.args, (r.client, r.net))

unfoldable pub grpc : {N : Type 0} → Network N → RpcClient (GrpcClient × N)
grpc net = record {
  sync_rpc = λ addr args c. as_replied (GrpcClient.sync_rpc net addr args c.0 c.1);
  async_rpc = λ addr tag args c. ok (async_rpc net addr tag args c.0 c.1);
  wait_async_reply = λ tag c. as_replied (wait_async_reply net tag c.0 c.1);
}

-- The address of a node, and the cache after it was looked for.
abbrev pub address_of : ℕ → Map ℕ → ℕ
address_of node cache = elim (Map.find node cache) [ none ↦ default_address | some addr ↦ addr ]

abbrev pub cached : ℕ → Map ℕ → Map ℕ
cached node cache = elim (Map.find node cache) [
  | none ↦ Map.set node default_address cache
  | some addr ↦ cache
]

find_one :
    (node : ℕ) (cache : Map ℕ)
    → find_addresses (node ∷ []) [] cache ≡ (address_of node cache ∷ [], cached node cache)
unfolding find_addresses Set.insert
find_one node cache = elim (Option-cases (Map.find node cache)) [
  | inl absent ↦ rw (absent, find_addresses, address_of, cached) refl
  | inr (addr, here) ↦ rw (here, find_addresses, address_of, cached) refl
]

-- After a failure the node has the default address again.
look_up_again_one :
    (node : ℕ) (addresses : List ℕ) (cache : Map ℕ)
    → look_up_again (node ∷ []) addresses cache
      ≡ Map.set node default_address (Map.erase node cache)
unfolding look_up_again invalidate_addresses find_addresses
look_up_again_one node addresses cache =
    let self : (node == node) ≡ true = (==_iff node node).1 refl in
    let gone : Map.find node (Map.erase node cache) ≡ none =
      find-erase node node cache ∙ rw self refl in
    rw (gone, look_up_again, find_addresses) refl

-- The one call of gRPC for a read of a node, and the RPC client after it.
abbrev pub read_call :
    {N : Type 0}
    → Network N
    → ℕ
    → RslReadArgs
    → ResolutionClient (GrpcClient × N)
    → Called ReadReply N
read_call net node a c =
    net.read.call (address_of node c.node_to_address) (make_read_request a.read_args) c.rpc_client.1

abbrev pub after_call :
    {N : Type 0} → Network N → ℕ → RslReadArgs → ResolutionClient (GrpcClient × N) → GrpcClient × N
after_call net node a c =
    (make_stub (address_of node c.node_to_address) c.rpc_client.0, (read_call net node a c).net)

-- Whether the server has given a value.
abbrev pub has_value : {N : Type 0} → Called ReadReply N → Bool
has_value called = called.success && called.reply.status

-- How a read of a node over gRPC ends.
pub record ReadAnswered {N : Type 0} (net : Network N) (u : Uninitialised) (node : ℕ)
    (a : RslReadArgs) (c : ResolutionClient (GrpcClient × N)) : Type 0 where
  pub failed :
      has_value (read_call net node a c) ≡ false
      → request_read (grpc net) u (node ∷ []) a c
        ≡ ok (
          a,
          record c {
            node_to_address =
                Map.set node default_address (Map.erase node (cached node c.node_to_address));
            rpc_client = after_call net node a c;
          },
        )
  pub copied :
      (old : Bytes)
      → has_value (read_call net node a c) ≡ true
      → u.value ≡ some old
      → request_read (grpc net) u (node ∷ []) a c
        ≡ ok (
          record a { value = some (read_call net node a c).reply.value },
          record c {
            node_to_address = cached node c.node_to_address;
            rpc_client = after_call net node a c;
          },
        )
  pub astray :
      has_value (read_call net node a c) ≡ true
      → u.value ≡ none
      → request_read (grpc net) u (node ∷ []) a c ≡ fault

-- A read over gRPC makes one call, to the address of the node or the default one. If the call fails or its reply
-- has a false status, the read returns with its value as it was and the node at the default address.
-- Otherwise, if the pointer of the call that was never set leads to a string, the read returns the value of
-- the reply, and if it leads nowhere, the read faults.
pub request_read-Answered :
    {N : Type 0} (net : Network N) (u : Uninitialised) (node : ℕ) (a : RslReadArgs)
    (c : ResolutionClient (GrpcClient × N))
    → ReadAnswered net u node a c
unfolding request_read grpc GrpcClient.sync_rpc assign_value take_read
request_read-Answered net u node a c =
    let one = find_one node c.node_to_address in
    let called = read_call net node a c in
    record {
      failed = λ no. rw one (elim (Bool-cases called.success) [
        | inl good ↦
            let bad : called.reply.status ≡ false = ground arith in
            simp (
              good,
              bad,
              look_up_again_one node (address_of node c.node_to_address ∷ [])
                  (cached node c.node_to_address),
            )
        | inr lost ↦ simp (
          lost,
          look_up_again_one node (address_of node c.node_to_address ∷ [])
              (cached node c.node_to_address),
        )
      ]);
      copied = λ old served e.
          let good : called.success ≡ true = ground arith in
          let status : called.reply.status ≡ true = ground arith in rw one (simp (good, status, e));
      astray = λ served e.
          let good : called.success ≡ true = ground arith in
          let status : called.reply.status ≡ true = ground arith in rw one (simp (good, status, e));
    }
