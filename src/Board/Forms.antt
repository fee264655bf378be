-- ===== src/Board/Forms.antt =====
-- Which form of a task a place holds.
use task_board_tools.Base.{none, some, ◌≡◌, arith, Text}
use task_board_tools.Board.{
  ok, Form, folder_form, file_form, Node, absent, file, Slot, resolve_form, folder_markdown,
  node_of,
}

-- The markdown of the other form.
abbrev pub other_node : Form → Slot → Node
other_node folder_form s = s.file_form
other_node file_form s = folder_markdown s.folder

pub resolve_form-none :
    (s : Slot)
    → resolve_form s ≡ ok none
    → (folder_markdown s.folder ≡ absent) × (s.file_form ≡ absent)
unfolding resolve_form
resolve_form-none s h = ground arith

pub resolve_form_absent :
    (f : Form) (s : Slot)
    → node_of f s ≡ absent
    → other_node f s ≡ absent
    → resolve_form s ≡ ok none
unfolding resolve_form
resolve_form_absent folder_form s h k = rw (h, k)
resolve_form_absent file_form s h k = rw (h, k)

pub resolve_form_file :
    (f : Form) (s : Slot) (t : Text)
    → node_of f s ≡ file t
    → other_node f s ≡ absent
    → resolve_form s ≡ ok (some f)
unfolding resolve_form
resolve_form_file folder_form s t h k = rw (h, k)
resolve_form_file file_form s t h k = rw (h, k)

-- The form found is that of a file, and a file form has no folder form beside it.
pub resolve_form-some :
    (f : Form) (s : Slot)
    → resolve_form s ≡ ok (some f)
    → ((t : Text) × (node_of f s ≡ file t)) × (f ≡ file_form → folder_markdown s.folder ≡ absent)
unfolding resolve_form
resolve_form-some folder_form s h = ground arith
resolve_form-some file_form s h = ground arith
