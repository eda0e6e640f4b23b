-- ===== src/Control/Socket.antt =====
-- crates/control/src/lib.rs: `default_socket_path`. The environment is an argument: a variable that is
-- unset, or not Unicode, is `none`.
use hwwctl.Prelude.{
  [], ◌∷◌, ◌++◌, Text, codes, Option, none, some, Bool, true, false, ◌==◌, if◌then◌else◌,
}

abbrev pub fallback_socket_path : Text
fallback_socket_path = codes "/tmp/hwwctl.sock"

unfoldable pub ends_with_slash : Text → Bool
ends_with_slash [] = false
ends_with_slash (c ∷ []) = c == b'/'
ends_with_slash (c ∷ d ∷ s) = ends_with_slash (d ∷ s)

-- `PathBuf::from(dir).join(name)`, for a relative name and a directory that is not empty
unfoldable pub path_join : Text → Text → Text
path_join dir name = if ends_with_slash dir then dir ++ name else dir ++ (b'/' ∷ name)

abbrev is_empty : Text → Bool
is_empty [] = true
is_empty (c ∷ s) = false

unfoldable pub from_runtime_dir : Option Text → Text
from_runtime_dir none = fallback_socket_path
from_runtime_dir (some dir) =
    if is_empty dir then fallback_socket_path else path_join dir (codes "hwwctl.sock")

unfoldable pub default_socket_path : Option Text → Option Text → Text
default_socket_path none runtime_dir = from_runtime_dir runtime_dir
default_socket_path (some v) runtime_dir = if is_empty v then from_runtime_dir runtime_dir else v
