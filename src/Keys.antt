-- ===== src/Keys.antt =====
-- src/core/key_routing.h and src/core/key_routing.cpp: what a key means.
pub mod Laws
mod Tests
use pane_dock.Common.{ℕ, ◌+◌, ◌-◌, ◌%◌, Bool, true, false, ◌&&◌, ◌||◌, not, ◌==◌, if◌then◌else◌}

abbrev pub virtual_key_back : ℕ
virtual_key_back = 8

abbrev pub virtual_key_tab : ℕ
virtual_key_tab = 9

abbrev pub virtual_key_return : ℕ
virtual_key_return = 13

abbrev pub virtual_key_left : ℕ
virtual_key_left = 37

abbrev pub virtual_key_up : ℕ
virtual_key_up = 38

abbrev pub virtual_key_right : ℕ
virtual_key_right = 39

abbrev pub virtual_key_delete : ℕ
virtual_key_delete = 46

abbrev pub virtual_key_f2 : ℕ
virtual_key_f2 = 113

abbrev pub virtual_key_f4 : ℕ
virtual_key_f4 = 115

abbrev pub virtual_key_f5 : ℕ
virtual_key_f5 = 116

abbrev pub virtual_key_f6 : ℕ
virtual_key_f6 = 117

pub data KeyMessage : Type 0 where
  other key_down system_key_down : KeyMessage

pub data KeyAction : Type 0 where
  nothing begin_group_rename begin_item_rename select_all new_folder open_selection : KeyAction
  copy cut delete_items delete_permanently paste focus_next_pane focus_previous_pane : KeyAction
  new_tab close_tab next_tab previous_tab history_back history_forward : KeyAction
  navigate_up refresh focus_address_bar : KeyAction

pub record KeyInput : Type 0 where
  pub message : KeyMessage
  pub virtual_key : ℕ
  pub control : Bool
  pub alt : Bool
  pub shift : Bool
  pub address_bar_focused : Bool
  pub list_focused : Bool
  pub sidebar_focused : Bool
  pub active_pane : ℕ
  pub pane_count : ℕ

pub record KeyRouting : Type 0 where
  pub action : KeyAction
  pub target_pane : ℕ

abbrev pub is_key_down : KeyMessage → Bool
is_key_down key_down = true
is_key_down _ = false

-- Either kind of key-down.
abbrev pub is_any_key_down : KeyMessage → Bool
is_any_key_down other = false
is_any_key_down _ = true

pub resolve_list_key : KeyInput → KeyAction
resolve_list_key i =
    let key = i.virtual_key in
    if not (is_key_down i.message) || i.alt
    then nothing
    else if not i.control
    then if key == virtual_key_delete
      then (if i.shift then delete_permanently else delete_items)
      else if i.shift
      then nothing
      else if key == virtual_key_f2
      then begin_item_rename
      else if key == virtual_key_return
      then open_selection
      else nothing
    else if i.shift
    then (if key == 78 then new_folder else nothing)
    else if key == 65
    then select_all
    else if key == 67
    then copy
    else if key == 88
    then cut
    else if key == 86
    then paste
    else nothing

abbrev pub routing : KeyAction → ℕ → KeyRouting
routing action target = record { action = action; target_pane = target }

-- `unsigned` sizes: with a count that is not zero, the sum of the two is far below 2^64.
pub step_pane : KeyInput → Bool → KeyRouting
step_pane i reverse =
    if i.pane_count == 0
    then routing nothing 0
    else if reverse
    then routing focus_previous_pane ((i.active_pane + i.pane_count - 1) % i.pane_count)
    else routing focus_next_pane ((i.active_pane + 1) % i.pane_count)

-- The rules after those of the list, in their order.
pub resolve_window_key : KeyInput → KeyRouting
unfolding step_pane
resolve_window_key i =
    let down = is_any_key_down i.message in
    let key = i.virtual_key in
    if is_key_down i.message
      && not i.control
      && not i.alt
      && not i.shift
      && (key == virtual_key_f2)
      && i.sidebar_focused
    then routing begin_group_rename 0
    else if down
        && i.control
        && not i.alt
        && not i.shift
        && (key == 86)
        && not i.address_bar_focused
    then routing paste 0
    else if down
        && not i.control
        && not i.alt
        && (key == virtual_key_tab)
        && not i.address_bar_focused
    then step_pane i i.shift
    else if down && i.control && not i.alt && (key == 84)
    then routing new_tab 0
    else if down && i.control && not i.alt && (key == 87)
    then routing close_tab 0
    else if down && i.control && not i.alt && (key == virtual_key_tab)
    then routing (if i.shift then previous_tab else next_tab) 0
    else if down && i.alt && not i.control && (key == virtual_key_left)
    then routing history_back 0
    else if down && i.alt && not i.control && (key == virtual_key_right)
    then routing history_forward 0
    else if down && i.alt && not i.control && (key == virtual_key_up)
    then routing navigate_up 0
    else if down
        && not i.control
        && not i.alt
        && (key == virtual_key_back)
        && not i.address_bar_focused
    then routing history_back 0
    else if is_key_down i.message
        && not i.control
        && not i.alt
        && not i.shift
        && (key == virtual_key_f5)
    then routing refresh 0
    else if down && i.control && not i.alt && not i.shift && (key == 82)
    then routing refresh 0
    else if (down && i.control && not i.alt && not i.shift && (key == 76))
        || (down && i.alt && not i.control && not i.shift && (key == 68))
        || (is_key_down i.message
            && not i.control
            && not i.alt
            && not i.shift
            && (key == virtual_key_f4))
    then routing focus_address_bar 0
    else if is_key_down i.message && (key == virtual_key_f6)
    then step_pane i i.shift
    else routing nothing 0

-- The list's own rule where it has one.
or_else : KeyAction → KeyRouting → KeyRouting
or_else nothing rest = rest
or_else action rest = routing action 0

pub resolve_key : KeyInput → KeyRouting
unfolding resolve_list_key resolve_window_key or_else
resolve_key i =
    if i.list_focused
    then or_else (resolve_list_key i) (resolve_window_key i)
    else resolve_window_key i
