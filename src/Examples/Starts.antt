-- ===== src/Examples/Starts.antt =====
-- The start of the manager: mett-eagle/manager/src/manager.cc and l4re_aux.cc.
use mett_eagle.Base.{◌≡◌, refl, [], ◌∷◌, ◌++◌, none, some, arith}
use mett_eagle.Startup.{serving, manager_main, init_aux}
use mett_eagle.Startup.Auxiliary.{init_aux_finds_last, words}
use mett_eagle.Startup.Main.{initial}

init_aux_finds_last_example :
    init_aux (
      (51 ∷ 52 ∷ [])
      ++ 0 ∷ (words (((6, 4096) ∷ (0xf0, 3) ∷ []) ++ (0xf0, 77) ∷ (9, 8) ∷ []) ++ 0 ∷ 5 ∷ []))
    ≡ some 77
init_aux_finds_last_example =
    init_aux_finds_last (51 ∷ 52 ∷ []) ((6, 4096) ∷ (0xf0, 3) ∷ []) ((9, 8) ∷ []) (5 ∷ []) 77
      (ground arith) (ground arith) (ground arith)

main_serves : manager_main none 12 (some 3) ≡ serving (initial 12)
unfolding manager_main
main_serves = refl
