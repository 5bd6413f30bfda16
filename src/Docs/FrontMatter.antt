-- ===== src/Docs/FrontMatter.antt =====
-- The front matter of hack/gendocs/main.go: `filePrepender` and the two templates, as text/template
-- renders them.
use unsealer.Prelude.{Bool, not, List, [], ◌∷◌, ◌++◌, if◌then◌else◌}
use unsealer.Text.{Text, text}
use unsealer.Kv.Azure.Base.{base as file_base}
use unsealer.Docs.Paths.{replace_underscore, has_underscore, title, ext, trim_suffix}

-- The data of the template "cmd".
pub record PageData : Type 0 where
  pub id : Text
  pub name : Text
  pub root_cmd : Bool

abbrev concat : List Text → Text
concat [] = []
concat (s ∷ rest) = s ++ concat rest

-- `{{- if .RootCmd }}`
abbrev pub for_root : Bool → List Text → Text
for_root root_cmd parts = if root_cmd then concat parts else []

-- The template "cmd".
unfoldable pub render_cmd : PageData → Text
render_cmd d = concat (
    text "---\n"
    ∷ text "title: "
    ∷ d.name
    ∷ text "\n"
    ∷ text "menu:\n"
    ∷ text "  docs_{{ .version }}:\n"
    ∷ text "    identifier: "
    ∷ d.id
    ∷ text "\n"
    ∷ text "    name: "
    ∷ d.name
    ∷ text "\n"
    ∷ text "    parent: reference-unsealer"
    ∷ for_root d.root_cmd (text "\n    weight: 0\n" ∷ [])
    ∷ text "\nmenu_name: docs_{{ .version }}\n"
    ∷ text "section_menu_id: reference"
    ∷ for_root d.root_cmd (
        text "\nurl: /docs/{{ .version }}/reference/unsealer/\n"
        ∷ text "aliases:\n"
        ∷ text "- /docs/{{ .version }}/reference/unsealer/"
        ∷ d.id
        ∷ text "/"
        ∷ [])
    ∷ text "\n---\n"
    ∷ [])

-- The template "index", which uses no data.
unfoldable pub render_index : Text
render_index = concat (
    text "---\n"
    ∷ text "title: Reference | Vault Unsealer\n"
    ∷ text "description: Vault Unsealer CLI Reference\n"
    ∷ text "menu:\n"
    ∷ text "  docs_{{ .version }}:\n"
    ∷ text "    identifier: reference-unsealer\n"
    ∷ text "    name: Vault Unsealer\n"
    ∷ text "    weight: 40\n"
    ∷ text "    parent: reference\n"
    ∷ text "menu_name: docs_{{ .version }}\n"
    ∷ text "---\n"
    ∷ [])

unfoldable pub page_data : Text → PageData
unfolding file_base ext trim_suffix replace_underscore title has_underscore
page_data filename =
    let name = file_base filename in
    let base = trim_suffix (ext name) name in
    record {
      id = replace_underscore b'-' base;
      name = title (replace_underscore b' ' base);
      root_cmd = not (has_underscore base);
    }

-- A template that is rendered into a buffer with these data has no error.
unfoldable pub file_prepender : Text → Text
unfolding page_data render_cmd
file_prepender filename = render_cmd (page_data filename)

unfoldable pub link_handler : Text → Text
link_handler name = text "/docs/reference/unsealer/" ++ name
