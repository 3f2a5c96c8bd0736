-- ===== src/Paths/Names.antt =====
-- File names as texts: the split of a name at its last dot, and the paths beside a file
-- (`Path::file_stem`, `extension`, `parent` and `with_extension` of the standard library), for
-- paths that do not end in a slash.
pub mod Splitting
use wftpd_linux.Base.{
  ℕ, Option, none, some, Text, text, [], ◌∷◌, ◌++◌, is_empty, if◌then◌else◌, ◌==◌,
}

abbrev pub behind : ℕ → Option (Text × Text) → Option (Text × Text)
behind d none = none
behind d (some (s, t)) = some (d ∷ s, t)

abbrev pub or_here : ℕ → ℕ → Text → Option (Text × Text) → Option (Text × Text)
or_here c d s none = if d == c then some ([], s) else none
or_here c d s (some parts) = behind d (some parts)

-- The parts in front of the last such character and behind it.
unfoldable pub split_last : ℕ → Text → Option (Text × Text)
split_last c [] = none
split_last c (d ∷ s) = or_here c d s (split_last c s)

-- A dot at the very front starts a hidden file, not an extension.
abbrev pub visible : Option (Text × Text) → Option (Text × Text)
visible none = none
visible (some (stem, ext)) = if is_empty stem then none else some (stem, ext)

abbrev pub stem_or : Text → Option (Text × Text) → Text
stem_or name none = name
stem_or name (some (stem, ext)) = stem

abbrev pub ext_of : Option (Text × Text) → Option Text
ext_of none = none
ext_of (some (stem, ext)) = some ext

abbrev pub file_stem : Text → Text
file_stem name = stem_or name (visible (split_last b'.' name))

abbrev pub extension : Text → Option Text
extension name = ext_of (visible (split_last b'.' name))

abbrev pub parent_of : Option (Text × Text) → Option Text
parent_of none = some []
parent_of (some (dir, name)) =
    if is_empty name then none else if is_empty dir then some (text "/") else some dir

-- `Path::parent`
abbrev pub parent_text : Text → Option Text
parent_text path = parent_of (split_last b'/' path)

abbrev pub beside : Text → Text → Option (Text × Text) → Text
beside path ext none = file_stem path ++ text "." ++ ext
beside path ext (some (dir, name)) = dir ++ text "/" ++ file_stem name ++ text "." ++ ext

-- `Path::with_extension`
unfoldable pub with_extension : Text → Text → Text
with_extension path ext = beside path ext (split_last b'/' path)
