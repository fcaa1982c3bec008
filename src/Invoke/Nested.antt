-- ===== src/Invoke/Nested.antt =====
-- Workers that invoke other actions.
use mett_eagle.Base.{
  ℕ, ◌≡◌, none, arith, lookup, Bytes, c_string, Outcome, returns, throws, Error, einval, Label,
}
use mett_eagle.Actions.{Actions}
use mett_eagle.Worker.{Loader}
use mett_eagle.Invoke.{
  Config, Setup, Message, invoke, Script, sends, Prepared, prepare, invoke_with, receive_timeout,
  log_wait, answer_of, dispatch, serve, op_action_invoke,
}
use mett_eagle.Invoke.Prepare.{prepare_unknown}

module _ {Stack : Type 0} (l : Loader Stack) (on_throw : Error → Outcome Label) (actions : Actions)
    (inner inner_arg : Bytes) (inner_length : ℕ) (inner_cfg : Config) (inner_setup : Setup)
    (inner_script : Script) where
  abbrev nested : Message
  nested = invoke inner inner_arg inner_length inner_cfg inner_setup inner_script

  -- If the framework's dispatch lets exceptions through, a worker without a time limit that could
  -- be started and whose first message invokes an unknown action is given up: the invocation of the
  -- client throws -L4_EINVAL, whatever the worker would do next.
  pub nested_unknown_throws :
      (name arg : Bytes) (ret_length now : ℕ) (cfg : Config) (setup : Setup) (rest : Script)
      (p : Prepared)
      → on_throw einval ≡ throws einval
      → lookup (c_string inner) actions ≡ none
      → prepare l actions name arg cfg setup ≡ returns p
      → cfg.timeout_us ≡ 0
      → op_action_invoke l on_throw actions name arg ret_length cfg setup (sends now nested rest)
        ≡ throws einval
  unfolding op_action_invoke invoke_with serve dispatch answer_of receive_timeout log_wait
  nested_unknown_throws name arg ret_length now cfg setup rest p through unknown ep z =
      ground (arith, prepare_unknown l actions inner inner_arg inner_cfg inner_setup unknown)
