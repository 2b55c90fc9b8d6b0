-- ===== src/Commands.antt =====
-- src/app_shell/pane_control_id.h: the command ids of the window's controls and what each id means.
--
-- An `int` id that is negative belongs to no block; ids are natural numbers here.
pub mod Decode
mod Tests
use pane_dock.Common.{
  ℕ, zero, suc, ◌+◌, ◌-◌, Bool, true, false, ◌&&◌, List, [], ◌∷◌, Option, none, some, ltb, leb,
  ◌==◌, if◌then◌else◌,
}

pub data PaneControl : Type 0 where
  tab_strip back forward up address_bar refresh view_mode pinned folder_context : PaneControl

pub PaneControl-discrete : Discrete PaneControl
PaneControl-discrete = hlevel

-- The table, in its order.
abbrev pub pane_control_id_bases : List (PaneControl × ℕ)
pane_control_id_bases =
    (tab_strip, 200)
    ∷ (back, 300)
    ∷ (forward, 310)
    ∷ (up, 320)
    ∷ (address_bar, 330)
    ∷ (refresh, 340)
    ∷ (view_mode, 350)
    ∷ (pinned, 392)
    ∷ (folder_context, 790)
    ∷ []

pub decode_in : List (PaneControl × ℕ) → ℕ → Option PaneControl
decode_in [] id = none
decode_in ((control, base) ∷ rest) id = if id == base then some control else decode_in rest id

pub decode_pane_control : ℕ → Option PaneControl
unfolding decode_in
decode_pane_control id = decode_in pane_control_id_bases id

-- The base of a control in the table; `none` stands for the -1 of a control that has none.
pub encode_in : List (PaneControl × ℕ) → PaneControl → Option ℕ
unfolding PaneControl-discrete
encode_in [] control = none
encode_in ((candidate, base) ∷ rest) control = elim (PaneControl-discrete candidate control) [
  | yes same ↦ some base
  | no other ↦ encode_in rest control
]

pub encode_pane_control : PaneControl → Option ℕ
unfolding encode_in
encode_pane_control control = encode_in pane_control_id_bases control

pub data GroupAction : Type 0 where
  create duplicate rename remove move_up move_down : GroupAction

pub data CommandKind : Type 0 where
  unknown group_list group_action layout_template tab_close pane_control : CommandKind

pub record Command : Type 0 where
  pub kind : CommandKind
  pub pane : ℕ
  pub index : ℕ
  pub action : GroupAction
  pub control : PaneControl

-- `Command{kind}`: the other members have their defaults.
abbrev pub command_of : CommandKind → ℕ → Command
command_of kind index = record {
  kind = kind;
  pane = 0;
  index = index;
  action = create;
  control = tab_strip;
}

-- `static_cast<GroupAction>`, of an index below the count of actions.
abbrev pub action_at : ℕ → GroupAction
action_at i =
    if i == 0
    then create
    else if i == 1
    then duplicate
    else if i == 2
    then rename
    else if i == 3
    then remove
    else if i == 4
    then move_up
    else move_down

-- The blocks after those of the controls.
pub decode_block : ℕ → Command
decode_block id =
    if leb 400 id && ltb id 408
    then command_of layout_template (id - 400)
    else if leb 780 id && leb id 783
    then command_of tab_close (id - 780)
    else command_of unknown 0

pub control_or : Option PaneControl → ℕ → Command
unfolding decode_block
control_or none id = decode_block id
control_or (some control) id = record (command_of pane_control 0) { control = control }

pub decode_command : ℕ → Command
unfolding control_or decode_pane_control
decode_command id =
    if id == 100
    then command_of group_list 0
    else if leb 101 id && ltb id 107
    then record (command_of group_action (id - 101)) { action = action_at (id - 101) }
    else control_or (decode_pane_control id) id
