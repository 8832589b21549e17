-- ===== src/Gateway/Vfs/Contents.antt =====
-- What a redirect writes, `cat` prints.
use aegis_honeypot.Prelude.{Bool, false, [], Option, none, some, if◌then◌else◌, list_eq}
use aegis_honeypot.Prelude.HashMap.{get}
use aegis_honeypot.Prelude.Text.{Text}
use aegis_honeypot.Gateway.Vfs.{FsNode, file, dir, DirNode, children, new_file}
use aegis_honeypot.Gateway.Vfs.Commands.{appended}

-- The text of a node, empty where there is none.
abbrev pub text_of : Option FsNode → Text
text_of none = []
text_of (some (dir d)) = []
text_of (some (file f)) = f.content

abbrev pub is_denied : Option FsNode → Bool
is_denied none = false
is_denied (some (dir d)) = false
is_denied (some (file f)) = f.permission_denied

abbrev new_node : Bool → Text → Text → DirNode → FsNode
new_node appends content name d =
    if appends then appended content (get name (children d)) else file (new_file content)
