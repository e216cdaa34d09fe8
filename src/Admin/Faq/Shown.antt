-- ===== src/Admin/Faq/Shown.antt =====
-- The rest of web/src/pages/admin/faq.tsx: the fields of the form, deletions, the answer to a new order,
-- and what is shown of the notes.
use cdk_system.Base.{
  ℕ, suc, ◌+◌, Bool, Option, none, some, List, [], ◌∷◌, ◌++◌, Text, text, decimal, length, ◌==◌,
  is_some, if◌then◌else◌,
}
use cdk_system.Api.{Settled, resolved, rejected, api_message}
use cdk_system.Api.Endpoints.{Endpoint}
use cdk_system.Admin.Faq.{FaqItem, Page}

unfoldable pub change_title : Text → Page → Page
change_title value p = record p { form = record p.form { title = value } }

unfoldable pub change_content : Text → Page → Page
change_content value p = record p { form = record p.form { content = value } }

-- `handleDelete`: its request, and the request and the notice that follow the answer.
unfoldable pub handle_delete : ℕ → Endpoint
handle_delete id = Endpoint.delete_faq id

unfoldable pub deleted : Settled Text → Option Endpoint × Text
deleted (resolved message) = (some Endpoint.faq, text "条目已删除")
deleted (rejected e) = (none, api_message (text "操作失败") e)

-- The end of `move`: the notes are loaded again whatever the answer.
unfoldable pub reordered : Settled Text → Endpoint × Text
reordered (resolved message) = (Endpoint.faq, text "排序已更新")
reordered (rejected e) = (Endpoint.faq, api_message (text "排序失败") e)

-- A note in the list, with whether its two arrows are disabled, and the question before it is deleted.
pub record NoteRow : Type 0 where
  pub title : Text
  pub content : Text
  pub up_disabled : Bool
  pub down_disabled : Bool
  pub delete_title : Text

-- `count` is the length of the whole list.
unfoldable pub note_row : ℕ → ℕ → FaqItem → NoteRow
note_row count index item = record {
  title = decimal (index + 1) ++ (text ". " ++ item.title);
  content = item.content;
  up_disabled = index == 0;
  down_disabled = index + 1 == count;
  delete_title = text "确定删除「" ++ (item.title ++ text "」吗？");
}

unfoldable pub note_rows : ℕ → ℕ → List FaqItem → List NoteRow
note_rows count index [] = []
note_rows count index (item ∷ items) = note_row count index item ∷ note_rows count (suc index) items

-- What the card holds: grey boxes, a notice, or the rows; and its count.
pub data NoteList : Type 0 where
  skeletons empty : NoteList
  rows : List NoteRow → NoteList

abbrev list_of : List FaqItem → NoteList
list_of [] = empty
list_of (item ∷ items) = rows (note_rows (length (item ∷ items)) 0 (item ∷ items))

unfoldable pub note_list : Page → NoteList
note_list p = elim p.items [ none ↦ skeletons | some items ↦ list_of items ]

unfoldable pub count_text : Page → Text
count_text p =
    text "共 "
    ++ ((elim p.items [ none ↦ text "…" | some items ↦ decimal (length items) ])
        ++ text " 条，支持上下移动调整顺序")

unfoldable pub form_title : Page → Text
form_title p = if is_some p.form.item then text "编辑条目" else text "新增条目"
