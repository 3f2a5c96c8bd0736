-- ===== src/Sftp/Render.antt =====
-- A path as text: `to_string_lossy` and `display` of a path that is built from components.
use wftpd_linux.Base.{[], ◌∷◌, ◌++◌, Text, text}
use wftpd_linux.Paths.{Component, root_dir, cur_dir, parent_dir, normal, PathBuf}

abbrev pub component_text : Component → Text
component_text root_dir = text "/"
component_text cur_dir = text "."
component_text parent_dir = text ".."
component_text (normal w) = w

-- The components behind the first one, each after a slash.
abbrev pub render_rest : PathBuf → Text
render_rest [] = []
render_rest (c ∷ p) = b'/' ∷ (component_text c ++ render_rest p)

abbrev pub render_relative : PathBuf → Text
render_relative [] = []
render_relative (c ∷ p) = component_text c ++ render_rest p

abbrev pub render : PathBuf → Text
render [] = []
render (root_dir ∷ p) = b'/' ∷ render_relative p
render (c ∷ p) = render_relative (c ∷ p)
