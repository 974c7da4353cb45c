-- ===== src/Sandbox/Flags.antt =====
-- The options of a command line of bwrap, each with its arguments.
use lean_fm.Common.{ℕ, String, Bool, true, false, ◌&&◌, List, [], ◌∷◌, any}

pub data Flag : Type 0 where
  die_with_parent new_session unshare_all cap_drop_all clearenv : Flag
  uid gid size : ℕ → Flag
  ro_bind bind : (outside inside : String) → Flag
  dir proc dev tmpfs chdir : String → Flag
  setenv : (name value : String) → Flag
  run : List String → Flag

-- "--ro-bind", path, path
abbrev pub same_path : String → Flag
same_path path = ro_bind path path

-- The options that every sandbox begins with.
abbrev pub walls : List Flag
walls = die_with_parent ∷ new_session ∷ unshare_all ∷ cap_drop_all ∷ []

abbrev pub system_paths : List String
system_paths = "/usr" ∷ "/bin" ∷ "/lib" ∷ "/lib64" ∷ []

-- "--proc", "/proc", "--dev", "/dev"
abbrev pub devices : List Flag
devices = proc "/proc" ∷ dev "/dev" ∷ []

-- What a process in the sandbox can write of the files outside, and where it finds them.
unfoldable pub writable : List Flag → List (String × String)
writable [] = []
writable (bind outside inside ∷ flags) = (outside, inside) ∷ writable flags
writable (die_with_parent ∷ flags) = writable flags
writable (new_session ∷ flags) = writable flags
writable (unshare_all ∷ flags) = writable flags
writable (cap_drop_all ∷ flags) = writable flags
writable (clearenv ∷ flags) = writable flags
writable (uid n ∷ flags) = writable flags
writable (gid n ∷ flags) = writable flags
writable (size n ∷ flags) = writable flags
writable (ro_bind outside inside ∷ flags) = writable flags
writable (dir path ∷ flags) = writable flags
writable (proc path ∷ flags) = writable flags
writable (dev path ∷ flags) = writable flags
writable (tmpfs path ∷ flags) = writable flags
writable (chdir path ∷ flags) = writable flags
writable (setenv name value ∷ flags) = writable flags
writable (run command ∷ flags) = writable flags

abbrev pub is_unshare : Flag → Bool
is_unshare unshare_all = true
is_unshare _ = false

abbrev pub is_drop : Flag → Bool
is_drop cap_drop_all = true
is_drop _ = false

abbrev pub is_die : Flag → Bool
is_die die_with_parent = true
is_die _ = false

-- Before its command, the environment is emptied and then only set.
abbrev pub has_clear : List Flag → Bool
has_clear [] = false
has_clear (clearenv ∷ flags) = true
has_clear (setenv name value ∷ flags) = false
has_clear (run command ∷ flags) = false
has_clear (flag ∷ flags) = has_clear flags

-- No namespace is shared, no capability kept, nothing outlives the caller, and the environment is
-- empty but for what is set after.
unfoldable pub is_walled : List Flag → Bool
is_walled flags = any is_unshare flags && any is_drop flags && any is_die flags && has_clear flags
