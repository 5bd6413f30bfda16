-- ===== src/Docs/Generate.antt =====
-- `docsDir` and `main` of hack/gendocs/main.go, over the calls that they make of os,
-- github.com/spf13/cobra/doc and gomodules.xyz/runtime.
use unsealer.Prelude.{ℕ, Option, none, some, [], ◌∷◌, ◌++◌}
use unsealer.Text.{Text, text}
use unsealer.Effect.{Call, ◌>>=◌, ◌>>◌}
use unsealer.Docs.Paths.{join}
use unsealer.Docs.FrontMatter.{file_prepender, link_handler, render_index}

-- The file system, in a state of type `S`, and the generator for a command of type `C`. A file that
-- is open is a handle.
pub record DocsSystem (S C : Type 0) : Type 0 where
  pub lookup_env : Text → Option Text
  pub go_path : Text
  pub remove_all : Text → Call S Unit
  pub mkdir_all : Text → Call S Unit
  pub gen_markdown_tree : C → Text → (Text → Text) → (Text → Text) → Call S Unit
  pub open_file : Text → Call S ℕ
  pub write : ℕ → Text → Call S Unit
  pub close : ℕ → Call S Unit

module _ {S C : Type 0} (sys : DocsSystem S C) where
  abbrev pub docs_root : Option Text → Text
  docs_root (some dir) = dir
  docs_root none = sys.go_path ++ text "/src/kubevault.dev/docs"

  unfoldable pub docs_dir : Text
  docs_dir = docs_root (sys.lookup_env (text "DOCS_ROOT"))

  unfoldable pub reference_dir : Text
  unfolding docs_dir join
  reference_dir = join (docs_dir ∷ text "docs" ∷ text "reference" ∷ text "unsealer" ∷ [])

  -- At the first error `log.Fatalln` ends the program.
  unfoldable pub generate : C → Call S Unit
  unfolding reference_dir join file_prepender link_handler render_index
  generate root_cmd = do
    sys.remove_all reference_dir
    sys.mkdir_all reference_dir
    sys.gen_markdown_tree root_cmd reference_dir file_prepender link_handler
    f ← sys.open_file (join (reference_dir ∷ text "_index.md" ∷ []))
    sys.write f render_index
    sys.close f
