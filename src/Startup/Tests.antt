-- ===== src/Startup/Tests.antt =====
-- srvfb.go: starting the server.
use srvfb.Base.{
  ℕ, ◌+◌, ◌<◌, ◌≡◌, refl, true, Option, none, some, List, [], ◌∷◌, if◌then◌else◌, length, get_elem?,
  get_or,
}
use Prim.Native.String.{String}
use text.Mathlib.Text.{◌==◌ as str_eq}
use srvfb.Base.Outcome.{ok, err}
use srvfb.Fb.Samples.{screen}
use srvfb.Serve.Video.{Server}
use srvfb.Serve.Video.Safety.{IsServer}
use srvfb.Startup.{
  Env, ℤ, pos, init, Flags, tcp_listener, timed, idle_timeout, System, prepare, run,
  proxy_or_device, wrap_listener,
}
use srvfb.Startup.Modes.{IsChecked, prepare-IsServer}
use srvfb.Startup.Files.{init-files}

-- A system on which all calls succeed, and whose server stops by its timeout.
abbrev system : System
system = record {
  file_listener = λ f. ok (tcp_listener f.fd);
  listen_tcp = λ addr. ok (tcp_listener 7);
  open_device = λ dev. ok (screen 1);
  serve = λ l h. idle_timeout;
}

abbrev flags : String → String → Flags
flags proxy device = record {
  listen = ":1234";
  proxy = proxy;
  device = device;
  idle = pos 60;
  n_arg = 0;
}

abbrev device_server : Server
device_server = record { has_fb = true; proxy_addr = "" }

prepare_device : prepare system (flags "" "/dev/fb0") [] ≡ ok (timed 7 (pos 60), device_server)
unfolding prepare wrap_listener
prepare_device = refl

prepare-IsServer_example : IsChecked (flags "" "/dev/fb0") [] × IsServer device_server
prepare-IsServer_example = prepare-IsServer system (flags "" "/dev/fb0") [] prepare_device

both_modes : run system (flags "10.11.99.1" "/dev/fb0") [] ≡ err proxy_or_device
unfolding run prepare
both_modes = refl

-- Two files, of which only the first is named.
abbrev env : Env
env = record { listen_pid = "42"; listen_fds = "2"; listen_fdnames = "http" }

abbrev atoi : String → Option ℤ
atoi s = if str_eq s "42" then some (pos 42) else if str_eq s "2" then some (pos 2) else none

abbrev names : List String
names = "http" ∷ []

init-files_example :
    let files = (init atoi (λ s. names) 42 env).listen_files in
    (length files ≡ 2)
    × ((i : ℕ)
        → i < 2
        → get_elem? files i ≡ some (record { fd = 3 + i; name = get_or names i "unknown" }))
init-files_example = init-files atoi (λ s. names) 42 env 2 refl refl refl refl
