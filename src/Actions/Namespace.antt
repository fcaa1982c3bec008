-- ===== src/Actions/Namespace.antt =====
-- The actions of a client as a partial function from names to actions.
use mett_eagle.Base.{
  ◌≤◌, ◌≡◌, refl, not, ◌&&◌, Option, none, some, arith, if◌then◌else◌, Bytes, c_string, bytes_eq,
  bytes_eq_iff, lookup, count, lookup-insert, lookup-erase, count-insert, count-erase,
  lookup_of_count_zero, count_of_lookup-none, Outcome, returns, throws, einval, eexist, enomem,
  Label, eok, Option-cases, inl, inr,
}
use mett_eagle.Actions.{
  Action, Actions, Language, Received, op_action_create, op_action_delete, no_actions,
}

-- The abstract view: which action a name stands for. Order and representation are gone.
abbrev pub Names : Type 0
Names = Bytes → Option Action

abbrev pub view : Actions → Names
view actions name = lookup name actions

abbrev pub bind_name : Bytes → Option Action → Names → Names
bind_name k a m j = if bytes_eq k j then a else m j

-- What a client may rely on when it creates an action.
abbrev pub create_spec : Bytes → Received → Language → Names → Names × Outcome Label
create_spec name file lang m =
    if not (file.cap_received && file.valid) then (m, throws einval) else elim (m name) [
      | some old ↦ (m, throws eexist)
      | none ↦ (
        bind_name name (some (record { ds = file.cap; lang = lang })) m,
        if file.realloc_failed then throws enomem else returns eok,
      )
    ]

module _ (buffer : Bytes) (file : Received) (lang : Language) (actions : Actions) where
  abbrev name : Bytes
  name = c_string buffer

  -- The handler refines the specification: its answer is the specified one, and afterwards every
  -- name stands for what the specification says.
  pub create_refines :
      ((k : Bytes)
        → view (op_action_create buffer file lang actions).0 k
          ≡ (create_spec name file lang (view actions)).0 k)
      × ((op_action_create buffer file lang actions).1
          ≡ (create_spec name file lang (view actions)).1)
  unfolding op_action_create
  create_refines = elim (Option-cases (lookup name actions)) [
    | inl e ↦ (
      λ k. ground (
        arith,
        count_of_lookup-none name actions e,
        lookup-insert name k (record { ds = file.cap; lang = lang }) actions,
      ),
      ground (arith, count_of_lookup-none name actions e),
    )
    | inr (a, e) ↦ (
      λ k. ground (arith, lookup_of_count_zero name actions),
      ground (arith, lookup_of_count_zero name actions),
    )
  ]

-- Each name has one entry at most.
abbrev pub IsUnique : Actions → Type 0
IsUnique actions = (k : Bytes) → count k actions ≤ 1

pub op_action_create-IsUnique :
    (buffer : Bytes) (file : Received) (lang : Language) (actions : Actions)
    → IsUnique actions
    → IsUnique (op_action_create buffer file lang actions).0
unfolding op_action_create
op_action_create-IsUnique buffer file lang actions u k = ground (
  arith,
  u k,
  bytes_eq_iff (c_string buffer) k,
  count-insert (c_string buffer) k (record { ds = file.cap; lang = lang }) actions,
)

pub op_action_delete-IsUnique :
    (buffer : Bytes) (actions : Actions)
    → IsUnique actions
    → IsUnique (op_action_delete buffer actions).0
unfolding op_action_delete
op_action_delete-IsUnique buffer actions u k =
    ground (arith, u k, count-erase (c_string buffer) k actions)

-- Requests of one client, in any order.
pub data Request : Actions → Actions → Type 0 where
  create :
      (buffer : Bytes) (file : Received) (lang : Language) {a : Actions}
      → Request a (op_action_create buffer file lang a).0
  delete : (buffer : Bytes) {a : Actions} → Request a (op_action_delete buffer a).0

pub data Requests : Actions → Type 0 where
  start : Requests no_actions
  later : {a b : Actions} → Requests a → Request a b → Requests b

-- After any requests, with any answers of the kernel, each name has one entry at most.
Requests-IsUnique : {a : Actions} → Requests a → IsUnique a
Requests-IsUnique start = λ k. omega arith
Requests-IsUnique (later r (create buffer file lang)) =
    op_action_create-IsUnique buffer file lang _ (Requests-IsUnique r)
Requests-IsUnique (later r (delete buffer)) =
    op_action_delete-IsUnique buffer _ (Requests-IsUnique r)

-- Deleting always succeeds; afterwards the name stands for nothing, and the others for what they
-- did.
pub delete_refines :
    (buffer k : Bytes) (actions : Actions)
    → ((op_action_delete buffer actions).1 ≡ returns eok)
      × (view (op_action_delete buffer actions).0 k
          ≡ bind_name (c_string buffer) none (view actions) k)
unfolding op_action_delete
delete_refines buffer k actions = (refl, lookup-erase (c_string buffer) k actions)

-- Creating an action under a fresh name and deleting it leaves every name as it was.
delete-create :
    (buffer k : Bytes) (file : Received) (lang : Language) (actions : Actions)
    → lookup (c_string buffer) actions ≡ none
    → view (op_action_delete buffer (op_action_create buffer file lang actions).0).0 k
      ≡ view actions k
delete-create buffer k file lang actions fresh = ground (
  arith,
  bytes_eq_iff (c_string buffer) k,
  (delete_refines buffer k (op_action_create buffer file lang actions).0).1,
  (create_refines buffer file lang actions).0 k,
)
