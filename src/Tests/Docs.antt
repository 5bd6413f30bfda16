-- ===== src/Tests/Docs.antt =====
-- Pages and paths of the generator of the reference.
use unsealer.Prelude.{◌≡◌, refl, true, false, [], ◌∷◌}
use unsealer.Text.{text, text_eq}
use unsealer.Kv.Azure.Base.{base, strip_slashes, last_component, has_slash}
use unsealer.Docs.Paths.{
  join, clean, drop_blank, split_slash, resolve, reverse_onto, with_slashes, ext, trim_suffix,
  replace_underscore, title, title_after, has_underscore, contains_slash,
}
use unsealer.Docs.FrontMatter.{page_data}

run_page :
    page_data (text "/docs/reference/unsealer/vault-unsealer_run.md")
    ≡ record { id = text "vault-unsealer-run"; name = text "Vault-Unsealer Run"; root_cmd = false }
unfolding page_data base strip_slashes last_component has_slash ext trim_suffix replace_underscore
    title title_after has_underscore contains_slash text text_eq
run_page = refl

root_page :
    page_data (text "vault-unsealer.md")
    ≡ record { id = text "vault-unsealer"; name = text "Vault-Unsealer"; root_cmd = true }
unfolding page_data base strip_slashes last_component has_slash ext trim_suffix replace_underscore
    title title_after has_underscore contains_slash text text_eq
root_page = refl

joined_path :
    join (text "/go/src/../docs/" ∷ text "docs" ∷ [] ∷ text "./unsealer" ∷ [])
    ≡ text "/go/docs/docs/unsealer"
unfolding join clean drop_blank split_slash resolve reverse_onto with_slashes text text_eq
joined_path = refl

climbing_path : clean (text "a/../../b") ≡ text "../b"
unfolding clean split_slash resolve reverse_onto with_slashes text text_eq
climbing_path = refl
