-- ===== src/Invoke/Answer.antt =====
-- What the caller of `op_action_invoke` receives.
use mett_eagle.Base.{
  ℕ, ◌≤◌, ◌≡◌, sym, ◌∙◌, subst, true, [], ◌∷◌, ◌++◌, some, arith, ltb, length, length-append,
  if◌then◌else◌, Bytes, Outcome, returns, throws, Error, efault, emsgtoolong, Label, >>=-eq-returns,
}
use mett_eagle.Actions.{Actions}
use mett_eagle.Worker.{
  Loader, new_worker, set_argv_strings, set_envp_strings, add_initial_capability, exited_with_error,
  get_exit_value,
}
use mett_eagle.Invoke.{
  Config, WorkerMetadata, Setup, Script, Session, Reply, Prepared, prepare, begin, finish,
  configure, invoke_with, serve, op_action_invoke,
}
use mett_eagle.Invoke.Serve.{
  Verdict, value, error, verdict, Shows, IsRunning, IsAnswered, serve-Shows, serve_returns,
}

-- The answer for a value: its bytes with the zero byte behind them, and the six times.
abbrev pub reply_for : Setup → Bytes → WorkerMetadata → Reply
reply_for setup v d = record {
  metadata = record {
    worker_metadata = d;
    start_worker = setup.start_worker;
    end_worker = setup.end_worker;
  };
  ret = v ++ 0 ∷ [];
}

-- What the caller is told at the end of a worker.
abbrev pub told : ℕ → Setup → Verdict → Outcome Reply
told ret_length setup (value v d) =
    if ltb (length v) ret_length then returns (reply_for setup v d) else throws emsgtoolong
told ret_length setup (error c) = throws efault

pub finish-told :
    (ret_length : ℕ) (setup : Setup) (s : Session) (v : Verdict)
    → Shows s v
    → finish ret_length setup s ≡ told ret_length setup v
unfolding finish exited_with_error get_exit_value
finish-told ret_length setup s (value v d) h = ground arith
finish-told ret_length setup s (error c) h = ground arith

module _ {Stack : Type 0} (l : Loader Stack) where
  pub prepare-IsRunning :
      (actions : Actions) (name arg : Bytes) (cfg : Config) (setup : Setup) (p : Prepared)
      → prepare l actions name arg cfg setup ≡ returns p
      → IsRunning (begin l p)
  unfolding prepare configure add_initial_capability new_worker set_argv_strings set_envp_strings
  prepare-IsRunning actions name arg cfg setup p h = ground arith

module _ {Stack : Type 0} (l : Loader Stack) (on_throw : Error → Outcome Label) (actions : Actions)
    (name arg : Bytes) (ret_length : ℕ) (cfg : Config) (setup : Setup) (script : Script) where
  -- A successful invocation answers with the value of the message that ended the worker, cut at its
  -- first zero byte and closed by one, and with that message's times between those of the manager;
  -- the answer fits into the caller's buffer.
  pub invoke_answer :
      (reply : Reply)
      → op_action_invoke l on_throw actions name arg ret_length cfg setup script ≡ returns reply
      → (v : Bytes) × (d : WorkerMetadata) × (verdict script ≡ some (value v d))
        × (reply ≡ reply_for setup v d)
        × (length reply.ret ≤ ret_length)
  unfolding op_action_invoke invoke_with
  invoke_answer reply h =
      let (p, ep, h1) = >>=-eq-returns (prepare l actions name arg cfg setup) _ h in
      let (s, es, h2) =
        >>=-eq-returns (serve l on_throw actions script cfg setup.start_worker true (begin l p)) _
          h1 in
      let (v, ev, shows) =
        serve-Shows l on_throw actions script cfg setup.start_worker true (begin l p) s
          (prepare-IsRunning l actions name arg cfg setup p ep) es in
      by_verdict v ev (sym (finish-told ret_length setup s v shows) ∙ h2)
    where
      by_verdict :
          (v : Verdict)
          → verdict script ≡ some v
          → told ret_length setup v ≡ returns reply
          → (v : Bytes) × (d : WorkerMetadata) × (verdict script ≡ some (value v d))
            × (reply ≡ reply_for setup v d)
            × (length reply.ret ≤ ret_length)
      by_verdict (error c) e t = cc
      by_verdict (value v d) e t = (v, d, e, ground arith, ground (arith, length-append v (0 ∷ [])))

  -- Without a time limit, and if the worker could be started and each invocation that it makes itself is
  -- answered, the invocation returns or throws as soon as the worker ends: with its value if it fits,
  -- -L4_EMSGTOOLONG if it does not, and -L4_EFAULT if the worker ended with an error.
  pub invoke_told :
      (p : Prepared) (v : Verdict)
      → prepare l actions name arg cfg setup ≡ returns p
      → cfg.timeout_us ≡ 0
      → IsAnswered l on_throw actions script
      → verdict script ≡ some v
      → op_action_invoke l on_throw actions name arg ret_length cfg setup script
        ≡ told ret_length setup v
  unfolding op_action_invoke invoke_with
  invoke_told p v ep z plain e =
      let r = prepare-IsRunning l actions name arg cfg setup p ep in
      let (s, es) =
        serve_returns l on_throw actions script cfg setup.start_worker true (begin l p) v z r plain
          e in
      let (w, ew, shows) =
        serve-Shows l on_throw actions script cfg setup.start_worker true (begin l p) s r es in
      rw ep (
        rw es
          (finish-told ret_length setup s v (subst (Shows s) (some-injective (sym ew ∙ e)) shows)))
    where
      some-injective : {a b : Verdict} → some a ≡ some b → a ≡ b
      some-injective h = cc
