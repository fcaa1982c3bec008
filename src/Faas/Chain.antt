-- ===== src/Faas/Chain.antt =====
-- mett-eagle-client/faas-functions: a function that invokes another one.
use mett_eagle.Base.{
  ℕ, ◌≡◌, ◌<◌, refl, ap, ◌∙◌, none, [], arith, Bytes, bytes, c_string, Error, Label, eok, Outcome,
  returns, blocks,
}
use mett_eagle.Actions.{Actions}
use mett_eagle.Worker.{Loader}
use mett_eagle.Invoke.{
  Config, Setup, Prepared, Message, invoke, sends, prepare, answer_of, op_action_invoke,
}
use mett_eagle.Invoke.Serve.{value}
use mett_eagle.Invoke.Answer.{reply_for, invoke_told}
use mett_eagle.Faas.{Code, native_times, native_main, script_of}
use mett_eagle.Faas.Functions.{function1, function2}
use mett_eagle.Faas.Delivery.{native_answer_delivered, verdict-script_of, script_of-IsAnswered}

module _ {Stack : Type 0} (l : Loader Stack) (on_throw : Error → Outcome Label) (actions : Actions)
    (mr_bytes : ℕ) (room : 0 < mr_bytes) (word : Code → ℕ) where
  -- The message of `L4Re::Faas::invoke ("function1", "50")`, without limits and with the largest
  -- buffer, and the run of function1 that it starts.
  abbrev pub call_function1 : Setup → ℕ → ℕ → ℕ → Message
  call_function1 setup before after now =
      invoke (bytes "function1") (bytes "50") mr_bytes (record { memory_limit = 0; timeout_us = 0 })
        setup (script_of word now (native_main function1 1 (bytes "50") before after blocks))

  -- function1 and function2 together: if both workers can be started, there is no time limit and
  -- the buffers are large enough, the inner invocation is answered, and the client that invokes
  -- function2 receives its text and times.
  pub function2_delivered :
      (inner setup : Setup) (q p : Prepared) (cfg : Config) (arg : Bytes)
      (ret_length sent before after now before1 after1 now1 : ℕ)
      → prepare l actions
          (bytes "function1")
          (bytes "50")
          (record { memory_limit = 0; timeout_us = 0 })
          inner
        ≡ returns q
      → prepare l actions (bytes "function2") arg cfg setup ≡ returns p
      → cfg.timeout_us ≡ 0
      → 19 < ret_length
      → op_action_invoke l on_throw actions (bytes "function2") arg ret_length cfg setup (
          sends sent (call_function1 inner before1 after1 now1) (
            script_of word now (native_main (function2 none) 1 (c_string arg) before after blocks)))
        ≡ returns (reply_for setup (bytes "function2 long name") (native_times before after))
  unfolding answer_of native_main function1 function2
  function2_delivered inner setup q p cfg arg ret_length sent before after now before1 after1 now1
        eq ep z fits =
      invoke_told l on_throw actions (bytes "function2") arg ret_length cfg setup _ p
        (value (bytes "function2 long name") (native_times before after)) ep z
        (
          (
            eok,
            ap (answer_of l on_throw actions)
                (native_answer_delivered l on_throw actions (bytes "function1") (bytes "50")
                  mr_bytes (record { memory_limit = 0; timeout_us = 0 }) inner q eq refl word now1
                  function1 before1 after1 [] refl room).0,
          ),
          script_of-IsAnswered l on_throw actions word now
              (native_main (function2 none) 1 (c_string arg) before after blocks),
        )
        (verdict-script_of word now
          (native_main (function2 none) 1 (c_string arg) before after blocks))
      ∙ ground arith
