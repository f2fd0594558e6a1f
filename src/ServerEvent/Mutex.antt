-- ===== src/ServerEvent/Mutex.antt =====
-- The mutex over the nodes with writes in src/SimpleTServer.cc, which `getEvent` may leave locked.
use mvtx.Prelude.{ℕ, ◌≡◌, refl, sym, subst, true, false, none, inl, inr, Bool-cases}
use mvtx.Prelude.Map
use mvtx.Prelude.Set
use mvtx.Prelude.Run.{ok}
use mvtx.Request.{RpcWriteArgs, RpcP1cArgs, RpcArgs}
use mvtx.ServerEvent.{World, reply, run}
use mvtx.ServerEvent.Dispatch.{Served, answered, serve, serve_write, serve_p1c}
use mvtx.ServerEvent.Keeps.{Keeps-trans, KeepsWorld, world_of, serve-Keeps, run-Keeps}

-- What a server may come to: it serves requests, which are not answered if they hang, and runs events.
pub data Later (get_node : ℕ → ℕ) (w : World) : World → Type 0 where
  here : Later get_node w w
  then_serves :
      {w1 w2 : World} (rid : ℕ) (args : RpcArgs)
      → Later get_node w w1
      → world_of (serve get_node rid args w1) w1 ≡ w2
      → Later get_node w w2
  then_runs :
      {w1 w2 : World} (fuel depth this : ℕ)
      → Later get_node w w1
      → run fuel depth this w1 ≡ ok w2
      → Later get_node w w2

Later-Keeps : (get_node : ℕ → ℕ) (w : World) {w' : World} → Later get_node w w' → KeepsWorld w w'
Later-Keeps get_node w here = (refl, λ h. h)
Later-Keeps get_node w (then_serves {w1} {w2} rid args before e) =
    Keeps-trans w.tserver w1.tserver w2.tserver (Later-Keeps get_node w before)
      (subst (λ x. KeepsWorld w1 x) e (serve-Keeps get_node rid args w1))
Later-Keeps get_node w (then_runs {w1} {w2} fuel depth this before e) =
    Keeps-trans w.tserver w1.tserver w2.tserver (Later-Keeps get_node w before)
      (run-Keeps fuel depth this w1 w2 e)

p1c-hung :
    (get_node : ℕ → ℕ) (rid : ℕ) (b : RpcP1cArgs) (w : World)
    → w.tserver.tid_write_mutex ≡ true
    → serve get_node rid (RpcArgs.p1c b) w ≡ Served.hung
unfolding serve serve_p1c
p1c-hung get_node rid b w held = simp held

write-hung :
    (get_node : ℕ → ℕ) (rid : ℕ) (b : RpcWriteArgs) (w : World)
    → w.tserver.tid_write_mutex ≡ true
    → Set.contains (get_node b.write_args.key) w.tserver.nodes ≡ true
    → serve get_node rid (RpcArgs.write b) w ≡ Served.hung
unfolding serve serve_write
write-hung get_node rid b w held mine = elim (Bool-cases w.tserver.tid_mutex) [
  | inl also ↦ simp (mine, also)
  | inr open_ ↦ simp (mine, open_, held)
]

-- What a phase one commit of a transaction without writes at this server leads to.
pub record Stuck (get_node : ℕ → ℕ) (rid : ℕ) (a : RpcP1cArgs) (w : World) : Type 0 where
  pub after : World
  pub unvoted : serve get_node rid (RpcArgs.p1c a) w ≡ answered after
  pub replies : after.replies ≡ (reply rid (RpcArgs.p1c a) w).replies
  pub next_commit :
      (w' : World) (rid' : ℕ) (b : RpcP1cArgs)
      → Later get_node after w'
      → serve get_node rid' (RpcArgs.p1c b) w' ≡ Served.hung
  pub next_write :
      (w' : World) (rid' : ℕ) (b : RpcWriteArgs)
      → Later get_node after w'
      → Set.contains (get_node b.write_args.key) w.tserver.nodes ≡ true
      → serve get_node rid' (RpcArgs.write b) w' ≡ Served.hung

-- While the mutex over the nodes with writes is free, a phase one commit of a transaction with no writes at the
-- server is answered with its arguments as they are. Whatever requests the server serves and whatever events
-- it runs after that, every phase one commit hangs, and every write to a node of the server.
pub serve-Stuck :
    (get_node : ℕ → ℕ) (rid : ℕ) (a : RpcP1cArgs) (w : World)
    → w.tserver.tid_write_mutex ≡ false
    → Map.find a.p1c_args.tid w.tserver.tid_to_write_nodes ≡ none
    → Stuck get_node rid a w
unfolding serve serve_p1c
serve-Stuck get_node rid a w free_ unknown =
    let after : World =
      reply rid (RpcArgs.p1c a)
        (record w { tserver = record w.tserver { tid_write_mutex = true } }) in
    record {
      after = after;
      unvoted = simp (free_, unknown);
      replies = refl;
      next_commit = λ w' rid' b later.
          p1c-hung get_node rid' b w' ((Later-Keeps get_node after later).1 refl);
      next_write = λ w' rid' b later mine.
          let k = Later-Keeps get_node after later in
          write-hung get_node rid' b w' (k.1 refl)
            (subst (λ x. Set.contains (get_node b.write_args.key) x ≡ true) (sym k.0) mine);
    }
