-- ===== src/FileSet.antt =====
-- src/fileset.rs: the input set.
pub mod Parse
use pbpp.Prelude.{List}
use pbpp.Text.{Text}
use pbpp.Cst.{File}

pub record SetFile : Type 0 where
  pub path : Text
  pub src : Text
  pub cst : File

pub record FileSet : Type 0 where
  pub files : List SetFile
