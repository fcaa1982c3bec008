-- ===== src/Server.antt =====
-- The server loop of a client's thread: `Exc_log_dispatch` (liblog/include/exc_log_dispatch) around
-- the handlers of `Manager_Client_Epiface` (mett-eagle/manager/src/manager_client.h and
-- manager_base.h). The requests of a client arrive one after the other.
pub mod Stay
pub mod Dispatch
pub mod Caught
pub mod Crash
pub mod Logging
use mett_eagle.Base.{
  ℕ, List, [], ◌∷◌, Option, none, some, Bytes, Outcome, returns, throws, blocks, Error, Label, eok,
  failed,
}
use mett_eagle.Actions.{Actions, Language, Received, op_action_create, op_action_delete}
use mett_eagle.Worker.{Loader}
use mett_eagle.Invoke.{Config, Setup, Script, Reply, op_action_invoke}

-- A request of the client, with what the calls outside the repository answer while it is handled.
pub data Request : Type 0 where
  create : Bytes → Received → Language → Request
  delete : Bytes → Request
  invoke : Bytes → Bytes → ℕ → Config → Setup → Script → Request

-- What the client receives: the label of the answer, or the result of an invocation.
pub data Answer : Type 0 where
  label : Label → Answer
  result : Reply → Answer

-- `Exc_log_dispatch`: an exception is logged, and its error number is the label of the answer. A
-- handler that waits for ever gives no answer.
unfoldable pub exc_log_dispatch : {A : Type 0} → (A → Answer) → Outcome A → Option Answer
exc_log_dispatch answer (returns a) = some (answer a)
exc_log_dispatch answer (throws e) = some (label (failed e))
exc_log_dispatch answer blocks = none

-- The answer is sent, and the loop goes on; with no answer it hangs in the handler.
unfoldable pub answered : Option Answer → Actions → Actions × List Answer → Actions × List Answer
answered none a more = (a, [])
answered (some x) a more = (more.0, x ∷ more.1)

module _ {Stack : Type 0} (l : Loader Stack) (on_throw : Error → Outcome Label) where
  -- One request: the actions afterwards, and the answer.
  unfoldable pub handle : Request → Actions → Actions × Option Answer
  unfolding exc_log_dispatch
  handle (create name file lang) a =
      let (a', o) = op_action_create name file lang a in (a', exc_log_dispatch label o)
  handle (delete name) a = let (a', o) = op_action_delete name a in (a', exc_log_dispatch label o)
  handle (invoke name arg ret_length cfg setup script) a = (
    a,
    exc_log_dispatch result (op_action_invoke l on_throw a name arg ret_length cfg setup script),
  )

  -- The loop: the answers, until a request is not answered.
  unfoldable pub internal_loop : List Request → Actions → Actions × List Answer
  unfolding handle answered
  internal_loop [] a = (a, [])
  internal_loop (r ∷ rs) a = let (a', o) = handle r a in answered o a' (internal_loop rs a')
