-- ===== src/Sandbox/Commands.antt =====
-- The five command lines, after the name `bwrap`.
use lean_fm.Common.{String, Bool, List, [], ◌∷◌, ◌++◌, map, filter, if◌then◌else◌, ◌+s◌}
use lean_fm.Sandbox.Flags.{
  Flag, clearenv, uid, gid, size, ro_bind, bind, dir, tmpfs, chdir, setenv, run, same_path, walls,
  system_paths, devices,
}

-- The directories of the installation and of a project that the commands name; `has_go` and
-- `exists` ask the file system.
pub record Places : Type 0 where
  pub root : String
  pub cache : String
  pub scratch : String
  pub bridge : String
  pub source : String
  pub runtime_json : String
  pub go : String
  pub has_go : Bool
  pub scripts : String
  pub toolchain : String
  pub library : String
  pub exists : String → Bool

abbrev pub go_bind : Places → List Flag
go_bind p = if p.has_go then ro_bind p.go "/go" ∷ [] else []

-- `supervise`: the worker of an application.
unfoldable pub worker_command : Places → (port nonce : String) → List Flag
worker_command p port nonce =
    walls
    ++ uid 1000 ∷ gid 1000 ∷ map same_path system_paths
    ++ go_bind p
    ++ dir "/work"
      ∷ ro_bind p.source "/work/source"
      ∷ dir "/work/spec"
      ∷ ro_bind p.runtime_json "/work/spec/runtime.json"
      ∷ bind p.cache "/work/.cache"
      ∷ bind p.bridge "/bridge"
      ∷ ro_bind p.scripts "/runtime"
      ∷ devices
    ++ size 134_217_728
      ∷ tmpfs "/tmp"
      ∷ chdir "/work/source"
      ∷ clearenv
      ∷ setenv "HOME" "/tmp"
      ∷ setenv "PATH" "/go/bin:/usr/bin:/bin"
      ∷ setenv "GOCACHE" "/work/.cache/go-build"
      ∷ setenv "GOMODCACHE" "/work/.cache/go-mod"
      ∷ setenv "GOTOOLCHAIN" "local"
      ∷ setenv "GOPROXY" "off"
      ∷ setenv "GOMAXPROCS" "2"
      ∷ setenv "PORT" port
      ∷ run ("/usr/bin/python3" ∷ "/runtime/chatui_application.py" ∷ "worker" ∷ nonce ∷ [])
      ∷ []

-- The paths of the command runner that are there on some systems only.
abbrev pub optional_paths : List String
optional_paths =
    "/etc/fonts" ∷ "/etc/texmf" ∷ "/var/lib/texmf" ∷ "/etc/alternatives" ∷ "/etc/ld.so.cache" ∷ []

-- The options of a check after the paths of the system.
unfoldable pub check_tail : Places → (is_book is_runtime : Bool) → List String → List Flag
check_tail p is_book is_runtime command =
    ro_bind p.toolchain "/toolchain" ∷ ro_bind p.library "/leanfm-lib" ∷ go_bind p
    ++ ro_bind p.root "/work"
      ∷ bind p.cache "/work/.cache"
      ∷ (if is_book then bind (p.root +s "/book") "/work/book" ∷ [] else [])
    ++ (if is_runtime then ro_bind p.scripts "/runtime" ∷ [] else [])
    ++ devices
    ++ tmpfs "/tmp"
      ∷ chdir "/work"
      ∷ clearenv
      ∷ setenv "HOME" "/tmp"
      ∷ setenv "PATH" "/go/bin:/toolchain/bin:/usr/bin:/bin"
      ∷ setenv "LEAN_PATH" "/leanfm-lib:/toolchain/lib/lean"
      ∷ setenv "GOCACHE" "/work/.cache/go-build"
      ∷ setenv "GOMODCACHE" "/work/.cache/go-mod"
      ∷ setenv "GOTOOLCHAIN" "local"
      ∷ setenv "GOPROXY" "off"
      ∷ run command
      ∷ []

-- `main` of the command runner: a check of a project. The book can be written by its own build only.
unfoldable pub check_command : Places → (is_book is_runtime : Bool) → List String → List Flag
unfolding check_tail
check_command p is_book is_runtime command =
    walls
    ++ map same_path system_paths
    ++ map same_path (filter p.exists optional_paths)
    ++ check_tail p is_book is_runtime command

-- `check` of a specification; `relative` is the scratch directory below the project.
unfoldable pub lean_command : Places → (relative : String) → List String → List Flag
lean_command p relative arguments =
    walls
    ++ map same_path system_paths
    ++ ro_bind p.toolchain "/toolchain"
      ∷ ro_bind p.library "/leanfm-lib"
      ∷ ro_bind p.root "/work"
      ∷ bind p.scratch ("/work/" +s relative)
      ∷ devices
    ++ tmpfs "/tmp"
      ∷ chdir "/work"
      ∷ clearenv
      ∷ setenv "HOME" "/tmp"
      ∷ setenv "PATH" "/toolchain/bin:/usr/bin:/bin"
      ∷ setenv "LEAN_PATH" ("/work/" +s relative +s ":/leanfm-lib:/toolchain/lib/lean")
      ∷ run ("/toolchain/bin/lean" ∷ "-j2" ∷ "-M2048" ∷ "--tstack=65536" ∷ arguments)
      ∷ []

-- `main` of the GIF tool: a script of the project.
unfoldable pub gif_command : Places → (script : String) → List Flag
gif_command p script =
    walls
    ++ map same_path ("/usr" ∷ "/usr/local" ∷ "/bin" ∷ "/lib" ∷ "/lib64" ∷ [])
    ++ ro_bind p.root "/work" ∷ bind p.scratch "/generated" ∷ devices
    ++ tmpfs "/tmp"
      ∷ chdir "/work"
      ∷ clearenv
      ∷ setenv "PATH" "/usr/bin:/bin"
      ∷ setenv "HOME" "/tmp"
      ∷ run ("/usr/bin/python3" ∷ ("/work/" +s script) ∷ "/generated/result.gif" ∷ [])
      ∷ []

-- The options of a conversion after the paths of the system.
unfoldable pub mp4_tail : Places → (input : String) → List Flag
mp4_tail p input =
    ro_bind p.root "/work" ∷ bind p.scratch "/generated" ∷ devices
    ++ tmpfs "/tmp"
      ∷ clearenv
      ∷ setenv "PATH" "/usr/bin:/bin"
      ∷ run (
          "/usr/bin/ffmpeg"
          ∷ "-hide_banner"
          ∷ "-loglevel"
          ∷ "error"
          ∷ "-y"
          ∷ "-protocol_whitelist"
          ∷ "file,pipe"
          ∷ "-i"
          ∷ ("/work/" +s input)
          ∷ "-vf"
          ∷ "scale=trunc(iw/2)*2:trunc(ih/2)*2"
          ∷ "-an"
          ∷ "-c:v"
          ∷ "libx264"
          ∷ "-preset"
          ∷ "medium"
          ∷ "-crf"
          ∷ "20"
          ∷ "-profile:v"
          ∷ "high"
          ∷ "-pix_fmt"
          ∷ "yuv420p"
          ∷ "-movflags"
          ∷ "+faststart"
          ∷ "/generated/result.mp4"
          ∷ [])
      ∷ []

-- `main` of the MP4 tool: a conversion of a file of the project.
unfoldable pub mp4_command : Places → (input : String) → List Flag
unfolding mp4_tail
mp4_command p input =
    walls
    ++ map same_path system_paths
    ++ map same_path (filter p.exists ("/etc/alternatives" ∷ "/etc/ld.so.cache" ∷ []))
    ++ mp4_tail p input
