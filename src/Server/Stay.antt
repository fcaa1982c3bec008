-- ===== src/Server/Stay.antt =====
-- An action that was created stays until its client deletes it.
use mett_eagle.Base.{
  ◌≡◌, ◌≢◌, ap, subst, sym, ◌∙◌, true, List, [], ◌∷◌, Option, none, some, arith, Bytes, bytes,
  c_string, bytes_eq_iff, lookup, Error, Outcome, returns, Label, eok, All, inl, inr, Option-cases,
}
use mett_eagle.Actions.{Action, Actions, Language, Received}
use mett_eagle.Actions.Namespace.{create_refines, delete_refines}
use mett_eagle.Worker.{Loader}
use mett_eagle.Invoke.{Config, Setup, Prepared, prepare}
use mett_eagle.Invoke.Prepare.{IsSetUp, prepare-IsSetUp}
use mett_eagle.Server.{
  Request, Answer, create, delete, invoke, label, exc_log_dispatch, answered, handle, internal_loop,
}

-- The request does not delete the name.
abbrev pub Spares : Bytes → Request → Type 0
Spares k (create buffer file lang) = Unit
Spares k (delete buffer) = c_string buffer ≢ k
Spares k (invoke name arg ret_length cfg setup script) = Unit

answered_stays :
    (o : Option Answer) (a : Actions) (more : Actions × List Answer) (k : Bytes) (x : Action)
    → lookup k a ≡ some x
    → lookup k more.0 ≡ some x
    → lookup k (answered o a more).0 ≡ some x
unfolding answered
answered_stays none a more k x e f = e
answered_stays (some z) a more k x e f = f

module _ {Stack : Type 0} (l : Loader Stack) (on_throw : Error → Outcome Label) where
  handle_stays :
      (r : Request) (a : Actions) (k : Bytes) (x : Action)
      → lookup k a ≡ some x
      → Spares k r
      → lookup k (handle l on_throw r a).0 ≡ some x
  unfolding handle
  handle_stays (create buffer file lang) a k x e h =
      ground (arith, (create_refines buffer file lang a).0 k, bytes_eq_iff (c_string buffer) k)
  handle_stays (delete buffer) a k x e h =
      ground (arith, (delete_refines buffer k a).1, bytes_eq_iff (c_string buffer) k)
  handle_stays (invoke name arg ret_length cfg setup script) a k x e h = e

  loop_stays :
      (rs : List Request) (a : Actions) (k : Bytes) (x : Action)
      → lookup k a ≡ some x
      → All (Spares k) rs
      → lookup k (internal_loop l on_throw rs a).0 ≡ some x
  unfolding internal_loop
  loop_stays [] a k x e h = e
  loop_stays (r ∷ rs) a k x e h =
      let kept = handle_stays r a k x e h.0 in
      answered_stays (handle l on_throw r a).1 _ _ k x kept
        (loop_stays rs (handle l on_throw r a).0 k x kept h.1)

  create_binds :
      (buffer : Bytes) (file : Received) (lang : Language) (a : Actions)
      → (handle l on_throw (create buffer file lang) a).1 ≡ some (label eok)
      → lookup (c_string buffer) (handle l on_throw (create buffer file lang) a).0
        ≡ some (record { ds = file.cap; lang = lang })
  unfolding handle exc_log_dispatch
  create_binds buffer file lang a ok =
      let (names, answer) = create_refines buffer file lang a in
      elim (Option-cases (lookup (c_string buffer) a)) [
        | inl e ↦
            ground
              (arith, names (c_string buffer), bytes_eq_iff (c_string buffer) (c_string buffer))
        | inr (y, e) ↦ absurd (ground arith)
      ]

  -- If the creation of an action is answered with L4_EOK and the client does not delete that name
  -- afterwards, then whatever else it asks for, the workers that are started for the name run the
  -- program, in the language, that was created, with the invocation's argument.
  pub created_is_invoked :
      l.is_valid_name (bytes "rom") ≡ true
      → l.is_valid_name (bytes "function") ≡ true
      → (buffer : Bytes) (file : Received) (lang : Language) (rs : List Request) (a : Actions)
        (name arg : Bytes) (cfg : Config) (setup : Setup) (p : Prepared)
      → (handle l on_throw (create buffer file lang) a).1 ≡ some (label eok)
      → All (Spares (c_string buffer)) rs
      → c_string name ≡ c_string buffer
      → prepare l (internal_loop l on_throw (create buffer file lang ∷ rs) a).0 name arg cfg setup
        ≡ returns p
      → IsSetUp l.cap_fpage_rw setup.rom setup.python_ds arg
          (record { ds = file.cap; lang = lang })
          p.worker
  unfolding internal_loop
  created_is_invoked rom_name function_name buffer file lang rs a name arg cfg setup p ok spared
        same ready =
      let bound = create_binds buffer file lang a ok in
      let kept =
        answered_stays (handle l on_throw (create buffer file lang) a).1 _
          (internal_loop l on_throw rs (handle l on_throw (create buffer file lang) a).0)
          (c_string buffer) (record { ds = file.cap; lang = lang }) bound
          (loop_stays rs (handle l on_throw (create buffer file lang) a).0 (c_string buffer)
            (record { ds = file.cap; lang = lang }) bound spared) in
      let (x, e, set_up, _) =
        prepare-IsSetUp l rom_name function_name _ name arg cfg setup p ready in
      subst (λ y. IsSetUp l.cap_fpage_rw setup.rom setup.python_ds arg y p.worker)
        (same_action x _ (
          sym e
          ∙ ap (λ k. lookup k (internal_loop l on_throw (create buffer file lang ∷ rs) a).0) same
          ∙ kept))
        set_up
    where
      same_action : (x y : Action) → some x ≡ some y → x ≡ y
      same_action x y h = cc
