-- ===== src/Viewer/Tree.antt =====
-- The workspace that generate_review.py reads: a tree of directories. The entries of a directory stand in
-- the order of `sorted`; a file has its text, or none where reading raises `OSError`.
use my_besu_net.Base.{Option, none, some, if◌then◌else◌, String}
use my_besu_net.Base.Text.{Text, is}

mutual
  pub data Node : Type 0 where
    file : Text → Option Text → Node
    dir : Text → Nodes → Node

  pub data Nodes : Type 0 where
    nil : Nodes
    cons : Node → Nodes → Nodes

-- `candidate.exists()` and what reading it gives: a directory cannot be read
unfoldable pub file_text : String → Nodes → Option (Option Text)
unfolding is
file_text name nil = none
file_text name (cons (file n text) nodes) =
    let rest = file_text name nodes in if is name n then some text else rest
file_text name (cons (dir n kids) nodes) =
    let rest = file_text name nodes in if is name n then some none else rest

-- `current / "outputs"`, where that is a directory
unfoldable pub outputs_dir : Nodes → Option Nodes
unfolding is
outputs_dir nil = none
outputs_dir (cons (file n text) nodes) = outputs_dir nodes
outputs_dir (cons (dir n kids) nodes) =
    let rest = outputs_dir nodes in if is "outputs" n then some kids else rest
