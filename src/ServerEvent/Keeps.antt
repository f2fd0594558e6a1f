-- ===== src/ServerEvent/Keeps.antt =====
-- What the steps of a server, src/SimpleTServer.cc with the events of src/ServerEvent.cc, do not undo.
use mvtx.Prelude.{
  ℕ, zero, suc, ◌≡◌, refl, sym, ◌∙◌, subst, Bool, true, false, inl, inr, List, [], ◌∷◌,
  if◌then◌else◌, dec64, Bool-cases, Option-cases,
}
use mvtx.Prelude.Map
use mvtx.Prelude.Set
use mvtx.Prelude.Run.{Run, ok, ◌>>=◌, >>=-ok, ok-injective}
use mvtx.Request.{RpcReadArgs, RpcWriteArgs, RpcP1cArgs, RpcP2cArgs, RpcArgs}
use mvtx.LockManager.{Locked, try_backward_lock, freeze_intervals, unlock_intervals}
use mvtx.TServer.{TServer, Write, get, get_keys, set, set_all, add, prepare, finalize}
use mvtx.ServerEvent.{
  World, save, moved, read_value, read_lock, run_read, run_write, lock_keys, run_p1c, freeze,
  unlock, release, run_p2c, run_args, run_each, run,
}
use mvtx.ServerEvent.Dispatch.{
  Served, event, answered, serve, serve_read, serve_write, serve_p1c, serve_p2c, new_event, note,
  note_write,
}

-- What no step of a server undoes: its nodes, and a locked mutex.
abbrev pub Keeps : TServer → TServer → Type 0
Keeps s s' = (s'.nodes ≡ s.nodes) × (s.tid_write_mutex ≡ true → s'.tid_write_mutex ≡ true)

pub Keeps-trans : (s1 s2 s3 : TServer) → Keeps s1 s2 → Keeps s2 s3 → Keeps s1 s3
Keeps-trans s1 s2 s3 k l = (l.0 ∙ k.0, λ e. l.1 (k.1 e))

abbrev pub KeepsWorld : World → World → Type 0
KeepsWorld w w' = Keeps w.tserver w'.tserver

-- The server after a request was served.
abbrev pub world_of : Served → World → World
world_of (event e w') w = w'
world_of (answered w') w = w'
world_of Served.hung w = w

pub serve-Keeps :
    (get_node : ℕ → ℕ) (rid : ℕ) (args : RpcArgs) (w : World)
    → KeepsWorld w (world_of (serve get_node rid args w) w)
unfolding serve serve_read serve_write serve_p1c serve_p2c new_event note note_write
serve-Keeps get_node rid (RpcArgs.read a) w =
    elim (Bool-cases (Set.contains (get_node a.read_args.key) w.tserver.nodes)) [
      | inr out ↦ rw out (refl, λ e. e)
      | inl mine ↦ elim (Bool-cases w.tserver.tid_mutex) [
        | inl held ↦ simp (mine, held) (refl, λ e. e)
        | inr open_ ↦ simp (mine, open_) (refl, λ e. e)
      ]
    ]
serve-Keeps get_node rid (RpcArgs.write a) w =
    elim (Bool-cases (Set.contains (get_node a.write_args.key) w.tserver.nodes)) [
      | inr out ↦ rw out (refl, λ e. e)
      | inl mine ↦ elim (Bool-cases w.tserver.tid_mutex) [
        | inl held ↦ simp (mine, held) (refl, λ e. e)
        | inr open_ ↦ elim (Bool-cases w.tserver.tid_write_mutex) [
          | inl held ↦ simp (mine, open_, held) (refl, λ e. e)
          | inr free_ ↦ simp (mine, open_, free_) (refl, λ e. e)
        ]
      ]
    ]
serve-Keeps get_node rid (RpcArgs.p1c a) w = elim (Bool-cases w.tserver.tid_write_mutex) [
  | inl held ↦ simp held (refl, λ e. e)
  | inr free_ ↦ elim (Option-cases (Map.find a.p1c_args.tid w.tserver.tid_to_write_nodes)) [
    | inl unknown ↦ simp (free_, unknown) (refl, λ e. refl)
    | inr (nodes, at) ↦ simp (free_, at) (refl, λ e. e)
  ]
]
serve-Keeps get_node rid (RpcArgs.p2c a) w = elim (Bool-cases w.tserver.tid_mutex) [
  | inl held ↦ simp held (refl, λ e. e)
  | inr free_ ↦ elim (Option-cases (Map.find a.p2c_args.tid w.tserver.tid_to_nodes)) [
    | inl unknown ↦ simp (free_, unknown) (refl, λ e. e)
    | inr (nodes, at) ↦ simp (free_, at) (refl, λ e. e)
  ]
]

-- An event that returns.
abbrev pub RunKeeps : World → Run World → Type 0
RunKeeps w out = (w' : World) → out ≡ ok w' → KeepsWorld w w'

ok-Keeps : (w w1 : World) → KeepsWorld w w1 → RunKeeps w (ok w1)
ok-Keeps w w1 k w' e = subst (λ x. KeepsWorld w x) (ok-injective w1 w' e) k

-- An outcome whose server is the one of `w`.
same-Keeps : (w w1 : World) → w1.tserver ≡ w.tserver → RunKeeps w (ok w1)
same-Keeps w w1 e = ok-Keeps w w1 (subst (λ s. Keeps w.tserver s) (sym e) (refl, λ h. h))

>>=-Keeps :
    {A : Type 0} (w : World) (m : Run A) (f : A → Run World)
    → ((a : A) → m ≡ ok a → RunKeeps w (f a))
    → RunKeeps w (m >>= f)
>>=-Keeps w m f h w' e = let b = >>=-ok m f w' e in h b.0 b.1 w' b.2

read_value-Keeps :
    (this rid : ℕ) (a : RpcReadArgs) (w : World) → RunKeeps w (read_value this rid a w)
unfolding read_value
read_value-Keeps this rid a w =
    elim (Option-cases (get a.read_args.key (dec64 a.read_args.start_ts) w.tserver)) [
      | inl lost ↦ rw (lost, read_value) (λ w' e. cc)
      | inr (value, at) ↦ rw (at, read_value) (same-Keeps w _ refl)
    ]

read_lock-Keeps : (this rid : ℕ) (a : RpcReadArgs) (w : World) → RunKeeps w (read_lock this rid a w)
unfolding read_lock
read_lock-Keeps this rid a w =
    let r = a.read_args in
    let f : Locked → Run World = λ out.
      if out.res
      then read_value this rid (moved out.ts_start a) (record w { locks = out.manager })
      else ok (
          save this rid 0 (RpcArgs.read (moved out.ts_start a))
            (record w { locks = out.manager })) in
    >>=-Keeps w (try_backward_lock r.key r.tid (dec64 r.start_ts) true this w.locks) f λ out e.
      elim (Bool-cases out.res) [
        | inl granted ↦
            rw granted
              (read_value-Keeps this rid (moved out.ts_start a) (record w { locks = out.manager }))
        | inr blocked ↦ rw blocked (same-Keeps w _ refl)
      ]

run_read-Keeps :
    (phase this rid : ℕ) (a : RpcReadArgs) (w : World) → RunKeeps w (run_read phase this rid a w)
unfolding run_read
run_read-Keeps zero this rid a w = read_lock-Keeps this rid a w
run_read-Keeps (suc zero) this rid a w = read_value-Keeps this rid a w
run_read-Keeps (suc (suc n)) this rid a w = λ w' e. cc

run_write-Keeps :
    (phase this rid : ℕ) (a : RpcWriteArgs) (w : World) → RunKeeps w (run_write phase this rid a w)
unfolding run_write add
run_write-Keeps zero this rid a w = ok-Keeps w _ (refl, λ h. h)
run_write-Keeps (suc n) this rid a w = λ w' e. cc

run_p1c-Keeps :
    (fuel phase this rid : ℕ) (a : RpcP1cArgs) (w : World)
    → RunKeeps w (run_p1c fuel phase this rid a w)
unfolding run_p1c prepare
run_p1c-Keeps fuel zero this rid a w =
    let p = a.p1c_args in
    >>=-Keeps w (lock_keys fuel p.tid p.start_ts p.commit_ts (get_keys p.tid w.tserver) w.locks) _
      λ out e. ok-Keeps w _ (refl, λ h. h)
run_p1c-Keeps fuel (suc n) this rid a w = λ w' e. cc

set_all-Keeps : (ts : ℕ) (ws : List Write) (s : TServer) → Keeps s (set_all ts ws s)
unfolding set_all set
set_all-Keeps ts [] s = (refl, λ h. h)
set_all-Keeps ts (w ∷ ws) s = set_all-Keeps ts ws (set w.key ts w.value s)

finalize-Keeps : (tid : ℕ) (success : Bool) (s : TServer) → Keeps s (finalize tid success s)
unfolding finalize
finalize-Keeps tid success s = elim (Option-cases (Map.find tid s.rdy_to_commit)) [
  | inl unknown ↦ rw (unknown, finalize) (refl, λ h. h)
  | inr (ts, at) ↦ elim (Option-cases (Map.find tid s.pend_writes)) [
    | inl idle ↦ rw (at, finalize, idle) (refl, λ h. h)
    | inr (ws, written) ↦ elim (Bool-cases success) [
      | inl committed ↦ rw (at, finalize, written, committed) (set_all-Keeps ts ws s)
      | inr aborted ↦ rw (at, finalize, written, aborted) (refl, λ h. h)
    ]
  ]
]

module _ (run_all : List ℕ → World → Run World)
    (keeps : (events : List ℕ) (w : World) → RunKeeps w (run_all events w)) where
  release-Keeps : (vote : Bool) (tid : ℕ) (w : World) → RunKeeps w (release run_all vote tid w)
  unfolding freeze unlock
  release-Keeps true tid w =
      >>=-Keeps w (freeze_intervals tid w.locks) _ λ out e. keeps out.1 (record w { locks = out.0 })
  release-Keeps false tid w =
      >>=-Keeps w (unlock_intervals tid w.locks) _ λ out e. keeps out.1 (record w { locks = out.0 })

  run_p2c-Keeps :
      (phase this rid : ℕ) (a : RpcP2cArgs) (w : World)
      → RunKeeps w (run_p2c run_all phase this rid a w)
  unfolding run_p2c
  run_p2c-Keeps zero this rid a w =
      let p = a.p2c_args in
      let w1 = save this rid 1 (RpcArgs.p2c a) w in
      >>=-Keeps w (release run_all p.vote p.tid w1) _ λ w2 e. ok-Keeps w _ (
        Keeps-trans w.tserver w2.tserver (finalize p.tid p.vote w2.tserver)
          (release-Keeps p.vote p.tid w1 w2 e) (finalize-Keeps p.tid p.vote w2.tserver))
  run_p2c-Keeps (suc zero) this rid a w = λ w' e. cc
  run_p2c-Keeps (suc (suc n)) this rid a w = same-Keeps w w refl

  run_args-Keeps :
      (fuel phase this rid : ℕ) (args : RpcArgs) (w : World)
      → RunKeeps w (run_args run_all fuel phase this rid args w)
  unfolding run_args
  run_args-Keeps fuel phase this rid (RpcArgs.read a) w = run_read-Keeps phase this rid a w
  run_args-Keeps fuel phase this rid (RpcArgs.write a) w = run_write-Keeps phase this rid a w
  run_args-Keeps fuel phase this rid (RpcArgs.p1c a) w = run_p1c-Keeps fuel phase this rid a w
  run_args-Keeps fuel phase this rid (RpcArgs.p2c a) w = run_p2c-Keeps phase this rid a w

run_each-Keeps :
    (step : ℕ → World → Run World)
    → ((e : ℕ) (w : World) → RunKeeps w (step e w))
    → (events : List ℕ) (w : World) → RunKeeps w (run_each step events w)
unfolding run_each
run_each-Keeps step keeps [] w = same-Keeps w w refl
run_each-Keeps step keeps (e ∷ events) w = >>=-Keeps w (step e w) _ λ w1 r w' r'.
    Keeps-trans w.tserver w1.tserver w'.tserver (keeps e w w1 r)
      (run_each-Keeps step keeps events w1 w' r')

pub run-Keeps : (fuel depth this : ℕ) (w : World) → RunKeeps w (run fuel depth this w)
unfolding run
run-Keeps fuel zero this w = λ w' e. cc
run-Keeps fuel (suc depth) this w = elim (Option-cases (Map.find this w.events)) [
  | inl lost ↦ rw (lost, run) (λ w' e. cc)
  | inr (e, at) ↦
      rw (at, run)
        (run_args-Keeps (run_each (run fuel depth))
          (run_each-Keeps (run fuel depth) (λ x w1. run-Keeps fuel depth x w1)) fuel e.phase this
          e.rid e.args w)
]
