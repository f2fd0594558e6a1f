-- ===== src/GrpcClient/Agree.antt =====
-- The asynchronous calls of src/GRPCClient.cc against the blocking one.
use mvtx.Prelude.{
  ℕ, ◌≡◌, refl, ap, sym, ◌∙◌, Bool, true, false, ◌&&◌, none, some, if◌then◌else◌, Option-cases,
  Bool-cases, inl, inr,
}
use mvtx.Prelude.Map
use mvtx.Prelude.Map.{find-set_self}
use mvtx.Prelude.Run.{ok, ◌>>=◌}
use mvtx.Request.{RpcArgs, RpcReadArgs, RpcWriteArgs, RpcP1cArgs, RpcP2cArgs}
use mvtx.Request.Message.{ReadReply}
use mvtx.GrpcClient.{
  Method, Network, GrpcClient, Replied, make_stub, start, proceed, read_reply, p1c_reply, p2c_reply,
  assign_value, sync_rpc, async_rpc, wait_async_reply, make_read_request, make_write_request,
  make_phase_one_commit_request, make_phase_two_commit_request,
}

-- gRPC: a call that is started and then awaited ends as the blocking call does, and its completion is
-- delivered.
pub record IsAwaited {Q R N : Type 0} (m : Method Q R N) : Type 0 where
  pub ends :
      (addr : ℕ) (q : Q) (n : N)
      → let s = m.send addr q n in
        let c = m.call addr q n in
        m.finish s.0 s.1
        ≡ record { delivered = true; success = c.success; reply = c.reply; net = c.net }

pub record AllAwaited {N : Type 0} (net : Network N) : Type 0 where
  pub read : IsAwaited net.read
  pub write : IsAwaited net.write
  pub p1c : IsAwaited net.p1c
  pub p2c : IsAwaited net.p2c

ok-injective : {A : Type 0} (a b : A) → ok a ≡ ok b → a ≡ b
ok-injective a b e = cc

if_true : {A : Type 0} (b : Bool) (x y : A) → b ≡ true → (if b then x else y) ≡ x
if_true b x y e = rw e refl

read_case :
    {N : Type 0} (s : Bool) (r : ReadReply) (a : RpcReadArgs) (k : RpcReadArgs → Replied N)
    (out : Replied N)
    → s ≡ true
    → let a1 : RpcReadArgs = record a { status = s && r.status } in
      ((if s && r.status then assign_value r a1 else ok a1) >>= λ x. ok (k x)) ≡ ok out
      → k (read_reply r a) ≡ out
unfolding assign_value read_reply
read_case false r a k out t e = cc
read_case true r a k out t e = elim (Bool-cases r.status) [
  | inl yes_ ↦ elim (Option-cases a.value) [
    | inl unset ↦ let e' = simp (yes_, unset) at e in cc
    | inr (old, set) ↦ let e' = simp (yes_, set) at e in simp yes_ (ok-injective _ out e')
  ]
  | inr no_ ↦ let e' = simp no_ at e in simp no_ (ok-injective _ out e')
]

read_failed :
    {N : Type 0} (s : Bool) (r : ReadReply) (a : RpcReadArgs) (k : RpcReadArgs → Replied N)
    (out : Replied N)
    → s ≡ false
    → let a1 : RpcReadArgs = record a { status = s && r.status } in
      ((if s && r.status then assign_value r a1 else ok a1) >>= λ x. ok (k x)) ≡ ok out
      → (x : RpcReadArgs) × (k x ≡ out)
unfolding assign_value
read_failed false r a k out t e = (record a { status = false }, ok-injective _ out e)
read_failed true r a k out t e = cc

module _ {N : Type 0} (net : Network N) (g : AllAwaited net) where
  abbrev view : Replied N → Bool × RpcArgs × N
  view r = (r.res, r.args, r.net)

  -- What `proceed` does after `start`.
  record Proceeds (addr : ℕ) (args : RpcArgs) (n : N) (out : Replied N) : Type 0 where
    call :
        let s = start net addr args n in
        proceed net s.0.call s.0.args s.1 ≡ (out.res, out.args, out.net)

  started :
      (addr : ℕ) (args : RpcArgs) (c : GrpcClient) (n : N) (out : Replied N)
      → sync_rpc net addr args c n ≡ ok out
      → out.res ≡ true
      → Proceeds addr args n out
  unfolding sync_rpc start proceed
  started addr (RpcArgs.read a) c n out e yes_ =
      let q = make_read_request a.read_args in
      let called = net.read.call addr q n in
      let k : RpcReadArgs → Replied N = λ x. record {
        res = called.success;
        args = RpcArgs.read x;
        client = make_stub addr c;
        net = called.net;
      } in
      elim (Bool-cases called.success) [
        | inl s ↦ record {
          call =
              rw (g.read.ends addr q n)
                (ap view (read_case called.success called.reply a k out s e));
        }
        | inr s ↦
            let w = read_failed called.success called.reply a k out s e in
            let no_ : called.success ≡ true = ap (λ (r : Replied N). r.res) w.1 ∙ yes_ in cc
      ]
  started addr (RpcArgs.write a) c n out e yes_ =
      let q = make_write_request a.write_args in
      let called = net.write.call addr q n in
      let e' = ok-injective _ out e in
      let s : called.success ≡ true = ap (λ (r : Replied N). r.res) e' ∙ yes_ in
      record {
        call = rw (g.write.ends addr q n) (
            ap
              (λ (b : Bool).
                let x : RpcWriteArgs = record a { status = b && called.reply.status } in
                let out : Bool × RpcArgs × N = (called.success, RpcArgs.write x, called.net) in out)
              (sym s)
            ∙ ap view e');
      }
  started addr (RpcArgs.p1c a) c n out e yes_ =
      let q = make_phase_one_commit_request a.p1c_args in
      let called = net.p1c.call addr q n in
      let e' = ok-injective _ out e in
      let s : called.success ≡ true = ap (λ (r : Replied N). r.res) e' ∙ yes_ in
      record {
        call = rw (g.p1c.ends addr q n) (
            ap
              (λ (x : RpcP1cArgs).
                let out : Bool × RpcArgs × N = (called.success, RpcArgs.p1c x, called.net) in out)
              (sym (if_true called.success (p1c_reply called.reply a) a s))
            ∙ ap view e');
      }
  started addr (RpcArgs.p2c a) c n out e yes_ =
      let q = make_phase_two_commit_request a.p2c_args in
      let called = net.p2c.call addr q n in
      let e' = ok-injective _ out e in
      let s : called.success ≡ true = ap (λ (r : Replied N). r.res) e' ∙ yes_ in
      record {
        call = rw (g.p2c.ends addr q n) (
            ap
              (λ (x : RpcP2cArgs).
                let out : Bool × RpcArgs × N = (called.success, RpcArgs.p2c x, called.net) in out)
              (sym (if_true called.success (p2c_reply called.reply a) a s))
            ∙ ap view e');
      }

  -- What a caller gets that starts a call and then waits for it.
  pub record Awaited (addr tag : ℕ) (args : RpcArgs) (c : GrpcClient) (n : N) (out : Replied N)
      : Type 0 where
    pub replied : Replied N
    pub runs :
        let a = async_rpc net addr tag args c n in wait_async_reply net tag a.0 a.1 ≡ ok replied
    pub res : replied.res ≡ true
    pub args_same : replied.args ≡ out.args
    pub net_same : replied.net ≡ out.net

  -- If a blocking call succeeds, and gRPC ends a call that is started and awaited as it ends the blocking
  -- one, then `asyncRPC` followed by `waitAsyncReply` succeeds with the same arguments and network.
  pub async_rpc-Awaited :
      (addr tag : ℕ) (args : RpcArgs) (c : GrpcClient) (n : N) (out : Replied N)
      → sync_rpc net addr args c n ≡ ok out
      → out.res ≡ true
      → Awaited addr tag args c n out
  unfolding async_rpc wait_async_reply
  async_rpc-Awaited addr tag args c n out e yes_ =
      let p = started addr args c n out e yes_ in
      let s = start net addr args n in
      let client = make_stub addr c in
      let done_ = proceed net s.0.call s.0.args s.1 in
      let kept =
        Map.set tag (some (record s.0 { args = done_.1 }))
          (Map.set tag (some s.0) client.tag_to_handler) in
      let dropped =
        Map.set tag none (Map.erase tag (Map.set tag (some s.0) client.tag_to_handler)) in
      let out' : Replied N = record {
        res = done_.0;
        args = done_.1;
        client = record client { tag_to_handler = if done_.0 then dropped else kept };
        net = done_.2;
      } in
      let found = find-set_self tag (some s.0) client.tag_to_handler in
      record {
        replied = out';
        runs = rw (found, wait_async_reply) refl;
        res = ap (λ (x : Bool × RpcArgs × N). x.0) p.call ∙ yes_;
        args_same = ap (λ (x : Bool × RpcArgs × N). x.1) p.call;
        net_same = ap (λ (x : Bool × RpcArgs × N). x.2) p.call;
      }
