-- ===== src/ResolutionClient.antt =====
-- src/SimpleResolutionClient.{h,cc}, src/ResolutionClient.h and src/RPCClient.h: requests to nodes, sent
-- to the addresses of the nodes. The RPC client is the interface `RpcClient` with the state `C`. An
-- address is a number. Tags stay below 2^31, where the `int tag` of the source is exact.
pub mod Read
pub mod Addresses
pub mod Phases
pub mod Tests
use mvtx.Prelude.{
  ℕ, zero, suc, ◌+◌, Bool, true, false, ◌&&◌, Option, none, some, List, [], ◌∷◌, if◌then◌else◌,
  ◌==◌, length,
}
use mvtx.Prelude.Map
use mvtx.Prelude.Map.{Map}
use mvtx.Prelude.Set
use mvtx.Prelude.Run.{Run, ok, fault, out_of_fuel, ◌>>=◌}
use mvtx.Request.{
  ReadArgs, WriteArgs, P1cArgs, P2cArgs, RslReadArgs, RslWriteArgs, RslP1cArgs, RslP2cArgs, RslArgs,
  RpcReadArgs, RpcWriteArgs, RpcP1cArgs, RpcP2cArgs, RpcArgs, Bytes,
}

-- `syncRPC`, `asyncRPC` and `waitAsyncReply`; the arguments of a call come back with its reply.
pub record RpcClient (C : Type 0) : Type 0 where
  pub sync_rpc : ℕ → RpcArgs → C → Run (Bool × RpcArgs × C)
  pub async_rpc : ℕ → ℕ → RpcArgs → C → Run C
  pub wait_async_reply : ℕ → C → Run (Bool × RpcArgs × C)

pub record ResolutionClient (C : Type 0) : Type 0 where
  pub node_to_address : Map ℕ
  pub tag : ℕ
  pub rpc_client : C

-- "0.0.0.0:10000", and the first tag.
abbrev pub default_address : ℕ
default_address = 10000

abbrev pub new_client : {C : Type 0} → C → ResolutionClient C
new_client rpc = record { node_to_address = []; tag = 135643; rpc_client = rpc }

-- The addresses of the nodes are added to a set; a node without one gets the default.
unfoldable pub find_addresses : List ℕ → List ℕ → Map ℕ → List ℕ × Map ℕ
find_addresses [] addresses cache = (addresses, cache)
find_addresses (node ∷ nodes) addresses cache = elim (Map.find node cache) [
  | none ↦
      find_addresses nodes (Set.insert default_address addresses)
        (Map.set node default_address cache)
  | some addr ↦ find_addresses nodes (Set.insert addr addresses) cache
]

unfoldable pub invalidate_addresses : List ℕ → Map ℕ → Map ℕ
invalidate_addresses [] cache = cache
invalidate_addresses (node ∷ nodes) cache = invalidate_addresses nodes (Map.erase node cache)

-- `*addresses.begin()` after the two assertions.
abbrev pub single_address : List ℕ → List ℕ → Run ℕ
single_address (node ∷ []) (addr ∷ []) = ok addr
single_address _ _ = fault

-- After a failed call the cache forgets the nodes and looks them up again; nothing is retried.
unfoldable pub look_up_again : List ℕ → List ℕ → Map ℕ → Map ℕ
unfolding find_addresses invalidate_addresses
look_up_again nodes addresses cache =
    (find_addresses nodes addresses (invalidate_addresses nodes cache)).1

-- What memory that was never written holds: a flag, and where a pointer to a string leads, nowhere or to some
-- bytes that may be used as a string.
pub record Uninitialised : Type 0 where
  pub flag : Bool
  pub value : Option Bytes

-- The string that the pointer leads to is copied into the result.
unfoldable pub take_read :
    {C : Type 0} → RpcArgs → RslReadArgs → Bool → (done failed : C) → Run (RslReadArgs × C)
take_read {C} (RpcArgs.read r) a res done failed =
    let copied : Run (RslReadArgs × C) = elim r.value [
      | none ↦ fault
      | some value ↦ ok (record a { value = some value }, done)
    ] in
    if res && r.status then copied else ok (a, failed)
take_read _ a res done failed = fault

abbrev pub status_of : RpcArgs → Bool
status_of (RpcArgs.read r) = r.status
status_of (RpcArgs.write r) = r.status
status_of _ = false

abbrev pub nodes_of : RpcArgs → List ℕ
nodes_of (RpcArgs.p1c r) = r.nodes
nodes_of (RpcArgs.p2c r) = r.nodes
nodes_of _ = []

abbrev pub vote_of : RpcArgs → Bool
vote_of (RpcArgs.p1c r) = r.vote
vote_of _ = true

-- `rem_nodes.erase(*it)` for all nodes of a reply.
unfoldable pub erase_all : List ℕ → List ℕ → List ℕ
erase_all [] rem = rem
erase_all (node ∷ nodes) rem = erase_all nodes (Set.erase node rem)

module _ {C : Type 0} (rpc : RpcClient C) (u : Uninitialised) where
  unfoldable pub request_read :
      List ℕ → RslReadArgs → ResolutionClient C → Run (RslReadArgs × ResolutionClient C)
  unfolding find_addresses look_up_again
  request_read nodes a c = do
    let found = find_addresses nodes [] c.node_to_address
    addr ← single_address nodes found.0
    let call : RpcReadArgs = record { read_args = a.read_args; value = u.value; status = u.flag }
    (res, args, rpc_client) ← rpc.sync_rpc addr (RpcArgs.read call) c.rpc_client
    take_read args a res (record c { node_to_address = found.1; rpc_client = rpc_client })
        (record c {
          node_to_address = look_up_again nodes found.0 found.1;
          rpc_client = rpc_client;
        })

  unfoldable pub request_write :
      List ℕ → RslWriteArgs → ResolutionClient C → Run (RslWriteArgs × ResolutionClient C)
  unfolding find_addresses look_up_again
  request_write nodes a c = do
    let found = find_addresses nodes [] c.node_to_address
    addr ← single_address nodes found.0
    let call : RpcWriteArgs = record { write_args = a.write_args; status = u.flag }
    (res, args, rpc_client) ← rpc.sync_rpc addr (RpcArgs.write call) c.rpc_client
    let cache = if res && status_of args then found.1 else look_up_again nodes found.0 found.1
    ok (a, record c { node_to_address = cache; rpc_client = rpc_client })

  -- Step two: a call to each address, with tags that count up.
  unfoldable pub send_all : RpcArgs → List ℕ → ℕ → C → Run (ℕ × C)
  send_all args [] tag c = ok (tag, c)
  send_all args (addr ∷ addresses) tag c = do
    c' ← rpc.async_rpc addr tag args c
    send_all args addresses (tag + 1) c'

  -- `while (!_rpc_client->waitAsyncReply(tag));`
  unfoldable pub wait_for : ℕ → ℕ → C → Run (RpcArgs × C)
  wait_for zero tag c = out_of_fuel
  wait_for (suc fuel) tag c = do
    (res, args, c') ← rpc.wait_async_reply tag c
    let again = wait_for fuel tag c'
    if res then ok (args, c') else again

  -- Step three: the replies in the order of the addresses. The nodes that are left, and the votes.
  unfoldable pub collect : ℕ → List ℕ → ℕ → List ℕ → Bool → C → Run (List ℕ × Bool × C)
  unfolding wait_for erase_all
  collect fuel [] tag rem vote c = ok (rem, vote, c)
  collect fuel (addr ∷ addresses) tag rem vote c = do
    (args, c') ← wait_for fuel tag c
    collect fuel addresses (tag + 1) (erase_all (nodes_of args) rem) (vote && vote_of args) c'

  -- The loop over the nodes that have not answered. `addresses` only grows.
  unfoldable pub rounds :
      ℕ → RpcArgs → List ℕ → List ℕ → Bool → ResolutionClient C → Run (Bool × ResolutionClient C)
  unfolding find_addresses invalidate_addresses send_all collect
  rounds fuel args [] addresses vote c = ok (vote, c)
  rounds zero args (node ∷ nodes) addresses vote c = out_of_fuel
  rounds (suc fuel) args (node ∷ nodes) addresses vote c = do
    let found = find_addresses (node ∷ nodes) addresses c.node_to_address
    (tag', c1) ← send_all args found.0 c.tag c.rpc_client
    (rem, vote', c2) ← collect (suc fuel) found.0 c.tag (node ∷ nodes) vote c1
    let cache = invalidate_addresses rem found.1
    rounds fuel args rem found.0 vote'
        (record { node_to_address = cache; tag = tag'; rpc_client = c2 })

  unfoldable pub request_p1c :
      ℕ → List ℕ → RslP1cArgs → ResolutionClient C → Run (RslP1cArgs × ResolutionClient C)
  unfolding rounds
  request_p1c fuel nodes a c = do
    let call : RpcP1cArgs = record { p1c_args = a.p1c_args; nodes = []; vote = u.flag }
    (vote, c') ← rounds fuel (RpcArgs.p1c call) nodes [] true c
    ok (record a { vote = vote }, c')

  unfoldable pub request_p2c :
      ℕ → List ℕ → RslP2cArgs → ResolutionClient C → Run (RslP2cArgs × ResolutionClient C)
  unfolding rounds
  request_p2c fuel nodes a c = do
    let call : RpcP2cArgs = record { p2c_args = a.p2c_args; nodes = [] }
    (vote, c') ← rounds fuel (RpcArgs.p2c call) nodes [] true c
    ok (a, c')

  -- `request`
  unfoldable pub request :
      ℕ → List ℕ → RslArgs → ResolutionClient C → Run (RslArgs × ResolutionClient C)
  unfolding request_read request_write request_p1c request_p2c
  request fuel nodes (RslArgs.read a) c = do
    (a', c') ← request_read nodes a c
    ok (RslArgs.read a', c')
  request fuel nodes (RslArgs.write a) c = do
    (a', c') ← request_write nodes a c
    ok (RslArgs.write a', c')
  request fuel nodes (RslArgs.p1c a) c = do
    (a', c') ← request_p1c fuel nodes a c
    ok (RslArgs.p1c a', c')
  request fuel nodes (RslArgs.p2c a) c = do
    (a', c') ← request_p2c fuel nodes a c
    ok (RslArgs.p2c a', c')
