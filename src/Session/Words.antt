-- ===== src/Session/Words.antt =====
-- src/core/session.cpp, `encode` and `decode`: the words of the session file, and its fields.
--
-- A text of the file is its bytes, and so is a key.
use pane_dock.Common.{[], ◌∷◌, Text}

abbrev pub schema_version_key : Text
schema_version_key =
    0x73 ∷ 0x63 ∷ 0x68 ∷ 0x65 ∷ 0x6d ∷ 0x61 ∷ 0x5f ∷ 0x76 ∷ 0x65 ∷ 0x72 ∷ 0x73 ∷ 0x69 ∷ 0x6f ∷ 0x6e
    ∷ []

abbrev pub active_group_id_key : Text
active_group_id_key =
    0x61 ∷ 0x63 ∷ 0x74 ∷ 0x69 ∷ 0x76 ∷ 0x65 ∷ 0x5f ∷ 0x67 ∷ 0x72 ∷ 0x6f ∷ 0x75 ∷ 0x70 ∷ 0x5f ∷ 0x69
    ∷ 0x64 ∷ []

abbrev pub groups_key : Text
groups_key = 0x67 ∷ 0x72 ∷ 0x6f ∷ 0x75 ∷ 0x70 ∷ 0x73 ∷ []

abbrev pub id_key : Text
id_key = 0x69 ∷ 0x64 ∷ []

abbrev pub name_key : Text
name_key = 0x6e ∷ 0x61 ∷ 0x6d ∷ 0x65 ∷ []

abbrev pub layout_template_key : Text
layout_template_key =
    0x6c ∷ 0x61 ∷ 0x79 ∷ 0x6f ∷ 0x75 ∷ 0x74 ∷ 0x5f ∷ 0x74 ∷ 0x65 ∷ 0x6d ∷ 0x70 ∷ 0x6c ∷ 0x61 ∷ 0x74
    ∷ 0x65 ∷ []

abbrev pub divider_ratios_key : Text
divider_ratios_key =
    0x64 ∷ 0x69 ∷ 0x76 ∷ 0x69 ∷ 0x64 ∷ 0x65 ∷ 0x72 ∷ 0x5f ∷ 0x72 ∷ 0x61 ∷ 0x74 ∷ 0x69 ∷ 0x6f ∷ 0x73
    ∷ []

abbrev pub panes_key : Text
panes_key = 0x70 ∷ 0x61 ∷ 0x6e ∷ 0x65 ∷ 0x73 ∷ []

abbrev pub active_tab_id_key : Text
active_tab_id_key =
    0x61 ∷ 0x63 ∷ 0x74 ∷ 0x69 ∷ 0x76 ∷ 0x65 ∷ 0x5f ∷ 0x74 ∷ 0x61 ∷ 0x62 ∷ 0x5f ∷ 0x69 ∷ 0x64 ∷ []

abbrev pub tabs_key : Text
tabs_key = 0x74 ∷ 0x61 ∷ 0x62 ∷ 0x73 ∷ []

abbrev pub shell_location_key : Text
shell_location_key =
    0x73 ∷ 0x68 ∷ 0x65 ∷ 0x6c ∷ 0x6c ∷ 0x5f ∷ 0x6c ∷ 0x6f ∷ 0x63 ∷ 0x61 ∷ 0x74 ∷ 0x69 ∷ 0x6f ∷ 0x6e
    ∷ []

abbrev pub view_mode_key : Text
view_mode_key = 0x76 ∷ 0x69 ∷ 0x65 ∷ 0x77 ∷ 0x5f ∷ 0x6d ∷ 0x6f ∷ 0x64 ∷ 0x65 ∷ []

abbrev pub sort_column_key : Text
sort_column_key = 0x73 ∷ 0x6f ∷ 0x72 ∷ 0x74 ∷ 0x5f ∷ 0x63 ∷ 0x6f ∷ 0x6c ∷ 0x75 ∷ 0x6d ∷ 0x6e ∷ []

abbrev pub sort_ascending_key : Text
sort_ascending_key =
    0x73 ∷ 0x6f ∷ 0x72 ∷ 0x74 ∷ 0x5f ∷ 0x61 ∷ 0x73 ∷ 0x63 ∷ 0x65 ∷ 0x6e ∷ 0x64 ∷ 0x69 ∷ 0x6e ∷ 0x67
    ∷ []

abbrev pub columns_key : Text
columns_key = 0x63 ∷ 0x6f ∷ 0x6c ∷ 0x75 ∷ 0x6d ∷ 0x6e ∷ 0x73 ∷ []

abbrev pub active_pane_id_key : Text
active_pane_id_key =
    0x61 ∷ 0x63 ∷ 0x74 ∷ 0x69 ∷ 0x76 ∷ 0x65 ∷ 0x5f ∷ 0x70 ∷ 0x61 ∷ 0x6e ∷ 0x65 ∷ 0x5f ∷ 0x69 ∷ 0x64
    ∷ []

abbrev pub pinned_locations_key : Text
pinned_locations_key =
    0x70 ∷ 0x69 ∷ 0x6e ∷ 0x6e ∷ 0x65 ∷ 0x64 ∷ 0x5f ∷ 0x6c ∷ 0x6f ∷ 0x63 ∷ 0x61 ∷ 0x74 ∷ 0x69 ∷ 0x6f
    ∷ 0x6e ∷ 0x73 ∷ []

abbrev pub clean_shutdown_key : Text
clean_shutdown_key =
    0x63 ∷ 0x6c ∷ 0x65 ∷ 0x61 ∷ 0x6e ∷ 0x5f ∷ 0x73 ∷ 0x68 ∷ 0x75 ∷ 0x74 ∷ 0x64 ∷ 0x6f ∷ 0x77 ∷ 0x6e
    ∷ []

abbrev pub window_placement_key : Text
window_placement_key =
    0x77 ∷ 0x69 ∷ 0x6e ∷ 0x64 ∷ 0x6f ∷ 0x77 ∷ 0x5f ∷ 0x70 ∷ 0x6c ∷ 0x61 ∷ 0x63 ∷ 0x65 ∷ 0x6d ∷ 0x65
    ∷ 0x6e ∷ 0x74 ∷ []

abbrev pub x_key : Text
x_key = 0x78 ∷ []

abbrev pub y_key : Text
y_key = 0x79 ∷ []

abbrev pub width_key : Text
width_key = 0x77 ∷ 0x69 ∷ 0x64 ∷ 0x74 ∷ 0x68 ∷ []

abbrev pub height_key : Text
height_key = 0x68 ∷ 0x65 ∷ 0x69 ∷ 0x67 ∷ 0x68 ∷ 0x74 ∷ []

abbrev pub maximized_key : Text
maximized_key = 0x6d ∷ 0x61 ∷ 0x78 ∷ 0x69 ∷ 0x6d ∷ 0x69 ∷ 0x7a ∷ 0x65 ∷ 0x64 ∷ []

abbrev pub sidebar_width_key : Text
sidebar_width_key =
    0x73 ∷ 0x69 ∷ 0x64 ∷ 0x65 ∷ 0x62 ∷ 0x61 ∷ 0x72 ∷ 0x5f ∷ 0x77 ∷ 0x69 ∷ 0x64 ∷ 0x74 ∷ 0x68 ∷ []

abbrev pub list_font_points_key : Text
list_font_points_key =
    0x6c ∷ 0x69 ∷ 0x73 ∷ 0x74 ∷ 0x5f ∷ 0x66 ∷ 0x6f ∷ 0x6e ∷ 0x74 ∷ 0x5f ∷ 0x70 ∷ 0x6f ∷ 0x69 ∷ 0x6e
    ∷ 0x74 ∷ 0x73 ∷ []

abbrev pub parsing_name_key : Text
parsing_name_key =
    0x70 ∷ 0x61 ∷ 0x72 ∷ 0x73 ∷ 0x69 ∷ 0x6e ∷ 0x67 ∷ 0x5f ∷ 0x6e ∷ 0x61 ∷ 0x6d ∷ 0x65 ∷ []

abbrev pub known_folder_identity_key : Text
known_folder_identity_key =
    0x6b ∷ 0x6e ∷ 0x6f ∷ 0x77 ∷ 0x6e ∷ 0x5f ∷ 0x66 ∷ 0x6f ∷ 0x6c ∷ 0x64 ∷ 0x65 ∷ 0x72 ∷ 0x5f ∷ 0x69
    ∷ 0x64 ∷ 0x65 ∷ 0x6e ∷ 0x74 ∷ 0x69 ∷ 0x74 ∷ 0x79 ∷ []

abbrev pub fallback_path_key : Text
fallback_path_key =
    0x66 ∷ 0x61 ∷ 0x6c ∷ 0x6c ∷ 0x62 ∷ 0x61 ∷ 0x63 ∷ 0x6b ∷ 0x5f ∷ 0x70 ∷ 0x61 ∷ 0x74 ∷ 0x68 ∷ []

abbrev pub namespace_location_key : Text
namespace_location_key =
    0x6e ∷ 0x61 ∷ 0x6d ∷ 0x65 ∷ 0x73 ∷ 0x70 ∷ 0x61 ∷ 0x63 ∷ 0x65 ∷ 0x5f ∷ 0x6c ∷ 0x6f ∷ 0x63 ∷ 0x61
    ∷ 0x74 ∷ 0x69 ∷ 0x6f ∷ 0x6e ∷ []

abbrev pub navigation_parent_key : Text
navigation_parent_key =
    0x6e ∷ 0x61 ∷ 0x76 ∷ 0x69 ∷ 0x67 ∷ 0x61 ∷ 0x74 ∷ 0x69 ∷ 0x6f ∷ 0x6e ∷ 0x5f ∷ 0x70 ∷ 0x61 ∷ 0x72
    ∷ 0x65 ∷ 0x6e ∷ 0x74 ∷ []

abbrev pub single_word : Text
single_word = 0x73 ∷ 0x69 ∷ 0x6e ∷ 0x67 ∷ 0x6c ∷ 0x65 ∷ []

abbrev pub left_right_word : Text
left_right_word = 0x6c ∷ 0x65 ∷ 0x66 ∷ 0x74 ∷ 0x5f ∷ 0x72 ∷ 0x69 ∷ 0x67 ∷ 0x68 ∷ 0x74 ∷ []

abbrev pub top_bottom_word : Text
top_bottom_word = 0x74 ∷ 0x6f ∷ 0x70 ∷ 0x5f ∷ 0x62 ∷ 0x6f ∷ 0x74 ∷ 0x74 ∷ 0x6f ∷ 0x6d ∷ []

abbrev pub three_pane_word : Text
three_pane_word = 0x74 ∷ 0x68 ∷ 0x72 ∷ 0x65 ∷ 0x65 ∷ 0x5f ∷ 0x70 ∷ 0x61 ∷ 0x6e ∷ 0x65 ∷ []

abbrev pub two_over_one_word : Text
two_over_one_word =
    0x74 ∷ 0x77 ∷ 0x6f ∷ 0x5f ∷ 0x6f ∷ 0x76 ∷ 0x65 ∷ 0x72 ∷ 0x5f ∷ 0x6f ∷ 0x6e ∷ 0x65 ∷ []

abbrev pub one_over_two_word : Text
one_over_two_word =
    0x6f ∷ 0x6e ∷ 0x65 ∷ 0x5f ∷ 0x6f ∷ 0x76 ∷ 0x65 ∷ 0x72 ∷ 0x5f ∷ 0x74 ∷ 0x77 ∷ 0x6f ∷ []

abbrev pub two_beside_one_word : Text
two_beside_one_word =
    0x74 ∷ 0x77 ∷ 0x6f ∷ 0x5f ∷ 0x62 ∷ 0x65 ∷ 0x73 ∷ 0x69 ∷ 0x64 ∷ 0x65 ∷ 0x5f ∷ 0x6f ∷ 0x6e ∷ 0x65
    ∷ []

abbrev pub four_pane_grid_word : Text
four_pane_grid_word =
    0x66 ∷ 0x6f ∷ 0x75 ∷ 0x72 ∷ 0x5f ∷ 0x70 ∷ 0x61 ∷ 0x6e ∷ 0x65 ∷ 0x5f ∷ 0x67 ∷ 0x72 ∷ 0x69 ∷ 0x64
    ∷ []
