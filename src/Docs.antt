-- ===== src/Docs.antt =====
-- hack/gendocs: the generator of the reference pages of the command line.
pub mod Paths
pub mod FrontMatter
pub mod Generate
