-- ===== src/Examples/Names.antt =====
-- Actions of a client: mett-eagle/manager/src/manager_client.cc.
use mett_eagle.Base.{
  ◌≡◌, refl, true, false, [], ◌∷◌, Bytes, bytes, returns, throws, eexist, enomem, eok,
}
use mett_eagle.Actions.{Actions, Received, op_action_create, no_actions, binary, python}
use mett_eagle.Actions.Namespace.{view, create_spec, create_refines}

abbrev sent : Received
sent = record { cap_received = true; cap = 9; valid = true; realloc_failed = false }

abbrev no_slot : Received
no_slot = record sent { realloc_failed = true }

abbrev f1 : Bytes
f1 = bytes "f1"

abbrev one_action : Actions
one_action = (f1, record { ds = 9; lang = python }) ∷ []

create_first : op_action_create f1 sent python no_actions ≡ (one_action, returns eok)
unfolding op_action_create
create_first = refl

-- A name ends at its first zero byte.
create_again :
    op_action_create (b'f' ∷ b'1' ∷ 0 ∷ b'x' ∷ []) sent binary one_action
    ≡ (one_action, throws eexist)
unfolding op_action_create
create_again = refl

create_refines_example :
    ((k : Bytes)
      → view (op_action_create f1 sent python no_actions).0 k
        ≡ (create_spec f1 sent python (view no_actions)).0 k)
    × ((op_action_create f1 sent python no_actions).1 ≡ returns eok)
create_refines_example = create_refines f1 sent python no_actions

create_no_slot : (op_action_create f1 no_slot python no_actions).1 ≡ throws enomem
unfolding op_action_create
create_no_slot = refl
