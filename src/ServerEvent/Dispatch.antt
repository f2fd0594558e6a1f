-- ===== src/ServerEvent/Dispatch.antt =====
-- `getEvent` of src/SimpleTServer.cc: what a server makes of what it finds when it polls. The RPC layer
-- and the queue are the list of what the polls find, in order; the key mapper is the function `get_node`.
use mvtx.Prelude.{ℕ, ◌+◌, true, false, none, some, List, [], ◌∷◌, if◌then◌else◌, leb}
use mvtx.Prelude.Map
use mvtx.Prelude.Map.{Map, find-set}
use mvtx.Prelude.Set
use mvtx.Request.{RpcReadArgs, RpcWriteArgs, RpcP1cArgs, RpcP2cArgs, RpcArgs}
use mvtx.ServerEvent.{ServerEvent, World, reply}

-- What a poll finds: an event of the queue, a request, or a reply that has been sent.
pub data Poll : Type 0 where
  queued : ℕ → Poll
  request : (rid : ℕ) → RpcArgs → Poll
  completed : (rid : ℕ) → Poll

-- A request becomes an event, or is answered at once, or waits for a mutex that is held for ever.
pub data Served : Type 0 where
  event : ℕ → World → Served
  answered : World → Served
  hung : Served

-- The nodes of a transaction after one of its requests to `node`.
abbrev pub add_node : ℕ → ℕ → Map (List ℕ) → Map (List ℕ)
add_node tid node m =
    Map.set tid (Set.insert node (elim (Map.find tid m) [ none ↦ [] | some nodes ↦ nodes ])) m

abbrev max : ℕ → ℕ → ℕ
max a b = if leb a b then b else a

max_key : Map ServerEvent → ℕ
max_key [] = 0
max_key ((k, e) ∷ m) = max k (max_key m)

-- `new` event, in phase 0, at an address that no other event has.
unfoldable pub new_event : ℕ → RpcArgs → World → Served
unfolding max_key
new_event rid args w =
    let this = max_key w.events + 1 in
    let e : ServerEvent = record { rid = rid; phase = 0; args = args } in
    event this (record w { events = Map.set this e w.events })

-- The nodes of the transaction are noted under the mutex.
unfoldable pub note : ℕ → ℕ → World → World
note tid node w = record w {
  tserver = record w.tserver { tid_to_nodes = add_node tid node w.tserver.tid_to_nodes };
}

unfoldable pub note_write : ℕ → ℕ → World → World
note_write tid node w = record w {
  tserver = record w.tserver {
    tid_to_write_nodes = add_node tid node w.tserver.tid_to_write_nodes;
  };
}

unfoldable pub serve_read : (ℕ → ℕ) → ℕ → RpcReadArgs → World → Served
unfolding new_event note
serve_read get_node rid a w =
    let node = get_node a.read_args.key in
    if Set.contains node w.tserver.nodes
    then (if w.tserver.tid_mutex
        then hung
        else new_event rid (RpcArgs.read (record a { status = true }))
            (note a.read_args.tid node w))
    else answered (reply rid (RpcArgs.read (record a { status = false })) w)

unfoldable pub serve_write : (ℕ → ℕ) → ℕ → RpcWriteArgs → World → Served
unfolding new_event note note_write
serve_write get_node rid a w =
    let node = get_node a.write_args.key in
    let tid = a.write_args.tid in
    if Set.contains node w.tserver.nodes
    then (if w.tserver.tid_mutex
        then hung
        else if w.tserver.tid_write_mutex
        then hung
        else new_event rid (RpcArgs.write (record a { status = true }))
            (note_write tid node (note tid node w)))
    else answered (reply rid (RpcArgs.write (record a { status = false })) w)

-- Where the transaction is not known, `continue` leaves the mutex locked.
unfoldable pub serve_p1c : ℕ → RpcP1cArgs → World → Served
unfolding new_event
serve_p1c rid a w =
    let s = w.tserver in
    let tid = a.p1c_args.tid in
    let known : Served = elim (Map.find tid s.tid_to_write_nodes) [
      | none ↦
          answered
            (reply rid (RpcArgs.p1c a) (record w { tserver = record s { tid_write_mutex = true } }))
      | some nodes ↦ new_event rid (RpcArgs.p1c (record a { nodes = nodes })) (record w {
        tserver = record s { tid_to_write_nodes = Map.erase tid s.tid_to_write_nodes };
      })
    ] in
    if s.tid_write_mutex then hung else known

unfoldable pub serve_p2c : ℕ → RpcP2cArgs → World → Served
unfolding new_event
serve_p2c rid a w =
    let s = w.tserver in
    let tid = a.p2c_args.tid in
    let known : Served = elim (Map.find tid s.tid_to_nodes) [
      | none ↦
          answered
            (reply rid (RpcArgs.p2c a) (record w { tserver = record s { tid_mutex = true } }))
      | some nodes ↦
          new_event rid (RpcArgs.p2c (record a { nodes = nodes }))
            (record w { tserver = record s { tid_to_nodes = Map.erase tid s.tid_to_nodes } })
    ] in
    if s.tid_mutex then hung else known

-- The `switch` over the type of the request.
unfoldable pub serve : (ℕ → ℕ) → ℕ → RpcArgs → World → Served
unfolding serve_read serve_write serve_p1c serve_p2c
serve get_node rid (RpcArgs.read a) w = serve_read get_node rid a w
serve get_node rid (RpcArgs.write a) w = serve_write get_node rid a w
serve get_node rid (RpcArgs.p1c a) w = serve_p1c rid a w
serve get_node rid (RpcArgs.p2c a) w = serve_p2c rid a w

-- What `getEvent` comes to: an event to run, or it still polls after these polls, or it hangs.
pub data Got : Type 0 where
  got : ℕ → World → List Poll → Got
  polling : World → List ℕ → Got
  hung : Got

-- The loop of `getEvent`; `deleted` collects the requests that it deletes.
unfoldable pub get_event : (ℕ → ℕ) → List Poll → List ℕ → World → Got
unfolding serve
get_event get_node [] deleted w = polling w deleted
get_event get_node (queued e ∷ polls) deleted w = got e w polls
get_event get_node (completed rid ∷ polls) deleted w = get_event get_node polls (rid ∷ deleted) w
get_event get_node (request rid args ∷ polls) deleted w = elim (serve get_node rid args w) [
  | event e w' ↦ got e w' polls
  | answered w' ↦ get_event get_node polls deleted w'
  | Served.hung ↦ Got.hung
]
