-- ===== src/Worker/Strings.antt =====
-- The argument and environment strings on the stack of the new process.
use mett_eagle.Base.{
  ℕ, ◌≡◌, refl, List, [], ◌∷◌, ◌++◌, Bytes, IsCString, All, c_string_of_IsCString,
}
use mett_eagle.Worker.{
  Loader, Worker, Vector, Process, push_argv_strings, push_argv_list, push_argv_rest,
  push_env_strings, push_env_list, push_env_rest, init_prog,
}

abbrev pub last_of : ℕ → List ℕ → ℕ
last_of a [] = a
last_of a (b ∷ rest) = last_of b rest

-- The first and the last of some addresses; without any, the vector stays as it is.
abbrev pub ends : List ℕ → Vector → Vector
ends [] v = v
ends (a ∷ rest) v = record { a0 = a; al = last_of a rest }

module _ {Stack : Type 0} (l : Loader Stack) where
  open l use {push_str}

  -- All strings pushed in order: their addresses, and the stack.
  abbrev pub pushed : List Bytes → Stack → List ℕ × Stack
  pushed [] stack = ([], stack)
  pushed (s ∷ ss) stack =
      let (address, next) = push_str s stack in
      let (addresses, top) = pushed ss next in (address ∷ addresses, top)

  pushed-append :
      (ss ts : List Bytes) (stack : Stack)
      → (pushed (ss ++ ts) stack).1 ≡ (pushed ts (pushed ss stack).1).1
  pushed-append [] ts stack = refl
  pushed-append (s ∷ ss) ts stack = pushed-append ss ts (push_str s stack).1

  push_argv_rest-pushed :
      (ss : List Bytes) (p : Process Stack)
      → push_argv_rest l ss p ≡ record p {
        stack = (pushed ss p.stack).1;
        argv = record { a0 = p.argv.a0; al = last_of p.argv.al (pushed ss p.stack).0 };
      }
  unfolding push_argv_rest
  push_argv_rest-pushed [] p = refl
  push_argv_rest-pushed (s ∷ ss) p = push_argv_rest-pushed ss _

  push_env_rest-pushed :
      (ss : List Bytes) (p : Process Stack)
      → push_env_rest l ss p ≡ record p {
        stack = (pushed ss p.stack).1;
        envp = record { a0 = p.envp.a0; al = last_of p.envp.al (pushed ss p.stack).0 };
      }
  unfolding push_env_rest
  push_env_rest-pushed [] p = refl
  push_env_rest-pushed (s ∷ ss) p = push_env_rest-pushed ss _

  push_argv_list-pushed :
      (ss : List Bytes) (p : Process Stack)
      → All IsCString ss
      → push_argv_list l ss p
        ≡ record p { stack = (pushed ss p.stack).1; argv = ends (pushed ss p.stack).0 p.argv }
  unfolding push_argv_list
  push_argv_list-pushed [] p h = refl
  push_argv_list-pushed (s ∷ ss) p h = rw (c_string_of_IsCString s h.0) (push_argv_rest-pushed ss _)

  push_env_list-pushed :
      (ss : List Bytes) (p : Process Stack)
      → All IsCString ss
      → push_env_list l ss p
        ≡ record p { stack = (pushed ss p.stack).1; envp = ends (pushed ss p.stack).0 p.envp }
  unfolding push_env_list
  push_env_list-pushed [] p h = refl
  push_env_list-pushed (s ∷ ss) p h = rw (c_string_of_IsCString s h.0) (push_env_rest-pushed ss _)

  -- With strings that hold no zero byte, `init_prog` pushes the arguments and then the environment,
  -- each in order and with no string left out; `argv` and `envp` then name the first and the last
  -- of their strings, and are as before if there is none.
  pub init_prog-pushed :
      (w : Worker) (p : Process Stack)
      → All IsCString w.argv
      → All IsCString w.envp
      → let args = pushed w.argv p.stack in
        let q = init_prog l w p in
        (q.stack ≡ (pushed (w.argv ++ w.envp) p.stack).1)
        × (q.argv ≡ ends args.0 p.argv)
        × (q.envp ≡ ends (pushed w.envp args.1).0 p.envp)
  unfolding init_prog push_argv_strings push_env_strings
  init_prog-pushed w p ha he = rw (push_argv_list-pushed w.argv p ha) (
      rw
        (
          push_env_list-pushed w.envp
              (record p {
                stack = (pushed w.argv p.stack).1;
                argv = ends (pushed w.argv p.stack).0 p.argv;
              })
              he,
          pushed-append w.argv w.envp p.stack,
        )
        (refl, refl, refl))
