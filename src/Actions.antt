-- ===== src/Actions.antt =====
-- mett-eagle/manager/src/manager_client.cc, manager_client.h and manager_base.h: the actions of a
-- client, and the handlers that create and delete them.
pub mod Namespace
use mett_eagle.Base.{
  ℕ, Bool, true, false, not, List, [], ◌∷◌, ◌==◌, Bytes, c_string, insert, erase, count, Outcome,
  returns, throws, Error, einval, eexist, enomem, Label, eok, throw_if,
}
use mett_eagle.Base.Exec.{Exec, pure, check, modify, read, ◌>>=◌, ◌>>◌}

-- `enum Language : l4_uint64_t`. The value comes from the client and is not checked.
abbrev pub Language : Type 0
Language = ℕ

abbrev pub binary : Language
binary = 0

abbrev pub python : Language
python = 1

pub record Action : Type 0 where
  pub ds : ℕ
  pub lang : Language

-- `std::map<std::string, Action>`, shared by the client's epiface and those of its workers.
abbrev pub Actions : Type 0
Actions = List (Bytes × Action)

-- The constructor makes an empty map.
abbrev pub no_actions : Actions
no_actions = []

-- What the calls outside the repository answer while an action is created.
pub record Received : Type 0 where
  pub cap_received : Bool
  pub cap : ℕ
  pub valid : Bool  -- `cap.validate ().label ()` is not 0
  pub realloc_failed : Bool  -- `realloc_rcv_cap (0) < 0`

unfoldable pub op_action_create : Bytes → Received → Language → Exec Actions Label
op_action_create buffer file lang = do
  let name = c_string buffer
  check (throw_if (not file.cap_received) einval)
  check (throw_if (not file.valid) einval)
  actions ← read
  check (throw_if (not (count name actions == 0)) eexist)
  modify (insert name (record { ds = file.cap; lang = lang }))
  check (throw_if file.realloc_failed enomem)
  pure eok

unfoldable pub op_action_delete : Bytes → Exec Actions Label
op_action_delete buffer = do modify (erase (c_string buffer)); pure eok
