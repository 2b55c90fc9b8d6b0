-- ===== src/Commands/Decode.antt =====
-- No block hides another: every id of a block decodes to it and to its place in it.
use pane_dock.Common.{ℕ, ◌+◌, ◌<◌, ◌≡◌, refl, some, arith}
use pane_dock.Commands.{
  PaneControl, tab_strip, back, forward, up, address_bar, refresh, view_mode, pinned,
  folder_context, decode_in, decode_pane_control, encode_pane_control, group_action,
  layout_template, tab_close, pane_control, command_of, action_at, decode_block, control_or,
  decode_command, PaneControl-discrete, encode_in,
}

-- Where a control has its id.
control-round :
    (c : PaneControl)
    → (id : ℕ) × (encode_pane_control c ≡ some id)
      × (decode_command id ≡ record (command_of pane_control 0) { control = c })
unfolding encode_pane_control encode_in decode_command PaneControl-discrete
control-round tab_strip = (200, refl, refl)
control-round back = (300, refl, refl)
control-round forward = (310, refl, refl)
control-round up = (320, refl, refl)
control-round address_bar = (330, refl, refl)
control-round refresh = (340, refl, refl)
control-round view_mode = (350, refl, refl)
control-round pinned = (392, refl, refl)
control-round folder_context = (790, refl, refl)

-- Every control has an id, and it decodes to that control; each of the other blocks decodes to its
-- own kind and to the offset in the block.
pub decode_command-blocks :
    (c : PaneControl) (i j k : ℕ)
    → i < 6
    → j < 8
    → k < 4
    → ((id : ℕ) × (encode_pane_control c ≡ some id)
        × (decode_command id ≡ record (command_of pane_control 0) { control = c }))
      × (decode_command (101 + i) ≡ record (command_of group_action i) { action = action_at i })
      × (decode_command (400 + j) ≡ command_of layout_template j)
      × (decode_command (780 + k) ≡ command_of tab_close k)
unfolding decode_command decode_pane_control decode_in decode_block control_or
decode_command-blocks c i j k action button tab =
    (control-round c, ground arith, ground arith, ground arith)
