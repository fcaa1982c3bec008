-- ===== src/System/Served.antt =====
-- The invocations of the benchmark: function1 of mett-eagle-client/faas-functions, under the limit of 75
-- milliseconds that the client sets.
use mett_eagle.Base.{
  ℕ, ◌+◌, ◌-◌, ◌/◌, ◌<◌, ◌≤◌, ◌≡◌, refl, ap, List, [], ◌∷◌, arith, Error, Label, Outcome, returns,
  blocks,
}
use mett_eagle.Worker.{Loader}
use mett_eagle.Invoke.{Setup, Script, quiet, Reply, op_action_invoke}
use mett_eagle.Invoke.Answer.{reply_for}
use mett_eagle.Invoke.Prompt.{IsReady, in_time, prepare_ready, prompt_told}
use mett_eagle.Faas.{Code, native_main, native_times, script_of}
use mett_eagle.Faas.Functions.{function1}
use mett_eagle.Server.{Request, invoke, internal_loop, answered}
use mett_eagle.Client.{Sample}
use mett_eagle.Client.Measure.{successes}
use mett_eagle.System.{Participant, action_name, benchmark_config, samples}
use mett_eagle.System.Connected.{one_action}

-- One invocation: what the kernel and the loader answer, the room for the answer, the clock of the
-- manager at its first wait, and that of the worker around its function.
pub record Visit : Type 0 where
  pub setup : Setup
  pub ret_length : ℕ
  pub now : ℕ
  pub start_function : ℕ
  pub end_function : ℕ

-- The worker can be started, there is room for the zero byte of an empty text, and the manager waits
-- for the worker within the limit.
pub record IsPrompt (v : Visit) : Type 0 where
  pub ready : IsReady v.setup
  pub room : 0 < v.ret_length
  pub forwards : v.setup.start_worker ≤ v.now
  pub early : (v.now - v.setup.start_worker) / 1000 ≤ 75000

-- What the worker sends: its wrapper runs function1 on the empty argument. The exit call is not
-- answered.
abbrev pub visit_script : (Code → ℕ) → Visit → Script
visit_script word v =
    script_of word v.now (native_main function1 1 [] v.start_function v.end_function blocks)

-- The request of the client.
abbrev pub visit_request : (Code → ℕ) → Visit → Request
visit_request word v =
    invoke action_name [] v.ret_length benchmark_config v.setup (visit_script word v)

-- The manager's answer: an empty text, and the times of the worker.
abbrev pub visit_reply : Visit → Reply
visit_reply v = reply_for v.setup [] (native_times v.start_function v.end_function)

-- The requests of a client are such invocations, each of a visit.
abbrev pub Visits : (Code → ℕ) → List Request → List Visit → Type 0
Visits word [] [] = Unit
Visits word (r ∷ rs) (v ∷ vs) = (r ≡ visit_request word v) × IsPrompt v × Visits word rs vs
Visits word _ _ = ⊥

-- What the client records of a visit.
abbrev pub visit_sample : ℕ × ℕ → Visit → Sample
visit_sample times v = record {
  start_invocation = times.0;
  end_invocation = times.1;
  data' = (visit_reply v).metadata;
}

abbrev pub visit_samples : (ℕ → ℕ × ℕ) → ℕ → List Visit → List Sample
visit_samples clock i [] = []
visit_samples clock i (v ∷ vs) = visit_sample (clock i) v ∷ visit_samples clock (i + 1) vs

module _ {Stack : Type 0} (l : Loader Stack) (on_throw : Error → Outcome Label) (word : Code → ℕ)
    (p : Participant) where
  -- Such an invocation is answered with the empty text.
  visit_told :
      (v : Visit)
      → IsPrompt v
      → op_action_invoke l on_throw
          (one_action p)
          action_name
          []
          v.ret_length
          benchmark_config
          v.setup
          (visit_script word v)
        ≡ returns (visit_reply v)
  unfolding script_of native_main function1
  visit_told v h =
      let (q, ready) =
        prepare_ready l (one_action p) action_name [] benchmark_config v.setup
          (record { ds = p.received.cap; lang = 0 }) refl refl refl h.ready in
      let (t, wait) = in_time benchmark_config v.setup.start_worker v.now h.forwards h.early in
      rw
        (prompt_told l on_throw (one_action p) action_name [] v.ret_length benchmark_config v.setup
          q t v.now [] (native_times v.start_function v.end_function) (quiet v.now) ready wait)
        (ground arith)

  -- All of them are answered, and the client records each.
  pub recorded_all :
      (rs : List Request) (vs : List Visit) (clock : ℕ → ℕ × ℕ) (i : ℕ)
      → Visits word rs vs
      → successes (samples clock i (internal_loop l on_throw rs (one_action p)).1)
        ≡ visit_samples clock i vs
  unfolding internal_loop answered samples
  recorded_all [] [] clock i h = refl
  recorded_all [] (v ∷ vs) clock i h = absurd h
  recorded_all (r ∷ rs) [] clock i h = absurd h
  recorded_all (r ∷ rs) (v ∷ vs) clock i h =
      rw (h.0, visit_told v h.1)
        (ap (λ ss. visit_sample (clock i) v ∷ ss) (recorded_all rs vs clock (i + 1) h.2))
