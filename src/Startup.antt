-- ===== src/Startup.antt =====
-- srvfb.go: the files passed by the service manager (init), the flags (run), and wrapListener.
pub mod Files
pub mod Modes
mod Tests
use Prim.Native.String.{String}
use text.Mathlib.Text.{◌==◌ as str_eq}
use srvfb.Base.{
  ℕ, zero, suc, ◌+◌, ◌-◌, ◌*◌, ◌/◌, ◌%◌, ◌^◌, ◌≤◌, ◌<◌, min, bit_and, bit_or, bit_xor, ◌≡◌, refl,
  sym, ap, ap₂, ◌∙◌, ◌≡⟨◌⟩◌, ◌∎, ◌≢◌, ◌↔◌, ◌⊎◌, inl, inr, Bool, true, false, not, ◌&&◌, ◌||◌,
  Option, none, some, List, [], ◌∷◌, ◌++◌, map, append-nil, append_assoc, arith, ltb, leb, ◌==◌,
  if◌then◌else◌, ltb→lt, lt→ltb, leb→le, le→leb, ==_iff, tests, Bool-cases, Option-cases, length,
  get_elem?, set, length-append, length-set, get_elem?-set_self, get_elem?-set_ne, get_or, take,
  drop, replicate, take-append-drop, length-take, length-drop, length-replicate, length-map,
}
use srvfb.Base.Outcome.{Outcome, ok, err, panic, reject_if, ◌>>=◌, ◌>>◌}
use srvfb.Fb.{Device}
use srvfb.Fb as Fb
use srvfb.Serve.Video.{Server}

-- The environment variables of socket activation; the empty text is a variable not set.
pub record Env : Type 0 where
  pub listen_pid : String
  pub listen_fds : String
  pub listen_fdnames : String

-- An *os.File.
pub record File : Type 0 where
  pub fd : ℕ
  pub name : String

-- A Go int, or a time.Duration.
pub data ℤ : Type 0 where
  pos : ℕ → ℤ
  negsuc : ℕ → ℤ  -- -(n + 1)

-- The rounds of `for i := 0; i < fds; i++`.
abbrev pub rounds : ℤ → ℕ
rounds (pos n) = n
rounds (negsuc n) = 0

abbrev is_int : ℕ → ℤ → Bool
is_int n (pos m) = n == m
is_int n (negsuc m) = false

-- What init leaves: the environment, `listenFDs`, and the descriptors marked close-on-exec.
pub record Activation : Type 0 where
  pub env : Env
  pub listen_files : List File
  pub cloexec : List ℕ

-- `for i := len(names); i < fds; i++ { names = append(names, "unknown") }`
unfoldable pub pad_names : List String → ℕ → List String
pad_names names fds = names ++ replicate (fds - length names) "unknown"

-- The last loop, from index i on, with `left` rounds to go; `names[i]` is out of range if it is
-- none.
unfoldable pub open_files : ℕ → ℕ → List String → List File
open_files zero i names = []
open_files (suc left) i names =
    record { fd = 3 + i; name = get_or names i "" } ∷ open_files left (i + 1) names

module _ (atoi : String → Option ℤ) (split : String → List String) (getpid : ℕ) where
  names_of : String → List String
  names_of s = if str_eq s "" then [] else split s

  fds_of : Env → Option ℤ → List File
  unfolding names_of
  fds_of env none = []
  fds_of env (some fds) =
      open_files (rounds fds) 0 (pad_names (names_of env.listen_fdnames) (rounds fds))

  files_of : Env → Option ℤ → List File
  unfolding fds_of
  files_of env none = []
  files_of env (some pid) =
      if not (is_int getpid pid)
      then []
      else if str_eq env.listen_fds ""
      then []
      else fds_of env (atoi env.listen_fds)

  -- init(); strconv.Atoi and strings.Split(s, ":") are `atoi` and `split`.
  unfoldable pub init : Env → Activation
  unfolding files_of
  init env =
      let files = if str_eq env.listen_pid "" then [] else files_of env (atoi env.listen_pid) in
      record {
        env = record { listen_pid = ""; listen_fds = ""; listen_fdnames = "" };
        listen_files = files;
        cloexec = map (λ f. f.fd) files;
      }

pub record Flags : Type 0 where
  pub listen : String
  pub proxy : String
  pub device : String
  pub idle : ℤ
  pub n_arg : ℕ

pub data RunError : Type 0 where
  usage : RunError
  proxy_or_device : RunError
  many_files : RunError
  listen_with_activation : RunError
  no_listen : RunError
  net_error : ℕ → RunError
  device_error : Fb.Error → RunError
  serve_error : ℕ → RunError

-- A net.Listener: of TCP, or of another kind.
pub data NetListener : Type 0 where
  tcp_listener : ℕ → NetListener
  other_listener : ℕ → NetListener

-- A *listener of srvfb.go, or the listener as it was.
pub data Listening : Type 0 where
  timed : ℕ → ℤ → Listening  -- the TCP listener and the timeout
  plain : NetListener → Listening

unfoldable pub wrap_listener : NetListener → ℤ → Listening
wrap_listener (tcp_listener n) timeout =
    if is_int 0 timeout then plain (tcp_listener n) else timed n timeout
wrap_listener (other_listener n) timeout = plain (other_listener n)

-- What http.Serve ends with: it returns only with an error of the listener's Accept.
pub data Ended : Type 0 where
  idle_timeout : Ended
  failed : ℕ → Ended

-- Packages net and net/http, and the system below fb.Open.
pub record System : Type 0 where
  pub file_listener : File → Outcome RunError NetListener
  pub listen_tcp : String → Outcome RunError NetListener
  pub open_device : String → Outcome Fb.Error Device
  pub serve : Listening → Server → Ended

from_fb : Outcome Fb.Error Device → Outcome RunError Bool
from_fb (ok d) = ok true
from_fb (err e) = err (device_error e)
from_fb panic = panic

finish : Ended → Outcome RunError (Unit {0})
finish idle_timeout = ok tt
finish (failed n) = err (serve_error n)

-- The choice of the listener.
listen_on : System → Flags → List File → Outcome RunError NetListener
listen_on sys flags (f ∷ _) =
    if not (str_eq flags.listen "") then err listen_with_activation else sys.file_listener f
listen_on sys flags [] =
    if str_eq flags.listen "" then err no_listen else sys.listen_tcp flags.listen

-- The handler that run registers, and the listener that it serves.
unfoldable pub prepare : System → Flags → List File → Outcome RunError (Listening × Server)
unfolding from_fb listen_on
prepare sys flags files = do
  reject_if (not (flags.n_arg == 0)) usage
  reject_if (if str_eq flags.proxy "" then str_eq flags.device "" else not (str_eq flags.device ""))
      proxy_or_device
  reject_if (ltb 1 (length files)) many_files
  l ← listen_on sys flags files
  has_fb ←
      (if not (str_eq flags.device "") then from_fb (sys.open_device flags.device) else ok false)
  ok (wrap_listener l flags.idle, record { has_fb = has_fb; proxy_addr = flags.proxy })

-- run()
unfoldable pub run : System → Flags → List File → Outcome RunError (Unit {0})
unfolding finish
run sys flags files = do (l, h) ← prepare sys flags files; finish (sys.serve l h)
