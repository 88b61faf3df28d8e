-- ===== src/Paths/Tests.antt =====
-- library/files.cpp: paths, and a double slash.
use mocf.Base.{◌≡◌, refl, [], ◌∷◌, Text, arith}
use mocf.Paths.{path, resolve_path, resolve_loop, last_slash, strip_dot, strip_slash}
use mocf.Paths.Fit.{Fits, resolve_path-Fits}

-- `/d`
abbrev dir : Text
dir = b'/' ∷ b'd' ∷ []

-- `./x/../y`
abbrev inside : Text
inside = b'.' ∷ b'/' ∷ b'x' ∷ b'/' ∷ b'.' ∷ b'.' ∷ b'/' ∷ b'y' ∷ []

-- `../x`
abbrev beside : Text
beside = b'.' ∷ b'.' ∷ b'/' ∷ b'x' ∷ []

resolved : resolve_path dir 32 inside ≡ path (b'/' ∷ b'd' ∷ b'/' ∷ b'y' ∷ [])
unfolding resolve_path resolve_loop last_slash strip_dot strip_slash
resolved = refl

-- The parent of a directory below the root: `//x`.
double_slash : resolve_path dir 32 beside ≡ path (b'/' ∷ b'/' ∷ b'x' ∷ [])
unfolding resolve_path resolve_loop last_slash strip_dot strip_slash
double_slash = refl

resolve_path-Fits_example : Fits 32 (resolve_path dir 32 inside)
resolve_path-Fits_example = resolve_path-Fits dir 32 inside (omega arith)
