-- ===== src/Paths.antt =====
-- library/files.cpp: `resolve_path`, which joins a directory and a file and takes out `.`, `..` and
-- double slashes. A C string is the list of its bytes up to the terminating zero.
pub mod Fit
mod Tests
use mocf.Base.{
  ℕ, zero, suc, ◌+◌, ◌-◌, Bool, true, false, not, ◌&&◌, Option, none, some, List, [], ◌∷◌, ◌++◌,
  Text, if◌then◌else◌, ltb, leb, ◌==◌, length, take, drop, get_or,
}

-- `!strncmp(f, prefix, |prefix|)`
abbrev pub starts_with : Text → Text → Bool
starts_with [] f = true
starts_with (c ∷ prefix) [] = false
starts_with (c ∷ prefix) (d ∷ f) = c == d && starts_with prefix f

-- `strrchr(buf, '/')`, as an index.
pub last_slash : Text → Option ℕ
last_slash [] = none
last_slash (c ∷ rest) =
    let later = last_slash rest in
    elim later [ some i ↦ some (suc i) | none ↦ if c == b'/' then some 0 else none ]

-- The outcome: the path in the buffer, the fatal error on a path that is too long, a failed assertion, or
-- (never, by the laws) no fuel left.
pub data Resolved : Type 0 where
  path : Text → Resolved
  fatal failed no_fuel : Resolved

-- `buf[i]`, within the string.
abbrev pub at : Text → ℕ → ℕ
at buf i = get_or buf i 0

-- The removal of a dot behind a slash, and of a trailing slash.
pub strip_dot : Text → Text
strip_dot buf =
    if leb 2 (length buf) && (at buf (length buf - 1) == b'.' && at buf (length buf - 2) == b'/')
    then take (length buf - 1) buf
    else buf

pub strip_slash : Text → Text
strip_slash buf =
    if ltb 1 (length buf) && at buf (length buf - 1) == b'/' then take (length buf - 1) buf else buf

-- One element less: `/` from `/directory`, or the text in front of the last slash.
abbrev pub parent : Text → ℕ → Text
parent buf slash = if slash == 0 then take 1 buf else take slash buf

-- The loop: `buf` is the string in the buffer, `len` the number of characters written.
pub resolve_loop : ℕ → ℕ → Text → ℕ → Text → Resolved
unfolding last_slash strip_dot strip_slash
resolve_loop zero size buf len f = no_fuel
resolve_loop (suc fuel) size buf len [] = path (strip_slash (strip_dot (take len buf)))
resolve_loop (suc fuel) size buf len (c ∷ f) =
    elim (starts_with (b'/' ∷ b'.' ∷ b'.' ∷ b'/' ∷ []) (c ∷ f)) [
      | true ↦ elim (last_slash buf) [
        | none ↦ failed
        | some slash ↦
            resolve_loop fuel size (parent buf slash) (length (parent buf slash)) (drop 2 f)
      ]
      | false ↦ elim (starts_with (b'/' ∷ b'.' ∷ b'/' ∷ []) (c ∷ f)) [
        | true ↦ resolve_loop fuel size buf len (drop 1 f)
        | false ↦ elim (starts_with (b'/' ∷ b'/' ∷ []) (c ∷ f)) [
          | true ↦ resolve_loop fuel size buf len f
          | false ↦ elim (len == size - 1) [
            | true ↦ fatal
            | false ↦ resolve_loop fuel size (take len buf ++ (c ∷ [])) (len + 1) f
          ]
        ]
      ]
    ]

-- `sizeof(path)`, twice PATH_MAX.
abbrev pub path_size : ℕ
path_size = 8192

-- `buf/file/`
abbrev pub joined : Text → Text → Text
joined buf file = buf ++ (b'/' ∷ (file ++ (b'/' ∷ [])))

-- `resolve_path`; a round for each byte is enough.
pub resolve_path : Text → ℕ → Text → Resolved
unfolding resolve_loop
resolve_path buf size file =
    if not (starts_with (b'/' ∷ []) buf)
    then failed
    else if leb path_size (length (joined buf file))
    then fatal
    else resolve_loop (suc (length (joined buf file))) size buf 0 (joined buf file)
