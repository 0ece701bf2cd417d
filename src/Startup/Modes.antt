-- ===== src/Startup/Modes.antt =====
-- srvfb.go, run: which servers it starts.
use text.Mathlib.Text.{◌==◌ as str_eq}
use srvfb.Base.{◌≡◌, ◌⊎◌, true, false, not, List, [], ◌∷◌, arith, length}
use srvfb.Base.Outcome.{ok}
use srvfb.Serve.Video.{Server}
use srvfb.Serve.Video.Safety.{IsServer}
use srvfb.Startup.{File, Flags, System, Listening, prepare}

-- What run has checked when it serves: no arguments, one of the two modes, and one source of
-- connections, either one file of the service manager or an address to listen on.
pub record IsChecked (flags : Flags) (files : List File) : Type 0 where
  pub no_args : flags.n_arg ≡ 0
  pub one_mode : str_eq flags.proxy "" ≡ not (str_eq flags.device "")
  pub one_source :
      ((length files ≡ 1) × (str_eq flags.listen "" ≡ true))
      ⊎ ((length files ≡ 0) × (str_eq flags.listen "" ≡ false))

prepare-IsChecked :
    (sys : System) (flags : Flags) (files : List File) {l : Listening} {h : Server}
    → prepare sys flags files ≡ ok (l, h)
    → IsChecked flags files
unfolding prepare
prepare-IsChecked sys flags [] e = ground arith
prepare-IsChecked sys flags (f ∷ []) e = ground arith
prepare-IsChecked sys flags (f ∷ g ∷ fs) e = ground arith

prepare-IsServer_of :
    (sys : System) (flags : Flags) (files : List File) {l : Listening} {h : Server}
    → prepare sys flags files ≡ ok (l, h)
    → IsServer h
unfolding prepare
prepare-IsServer_of sys flags [] e = ground arith
prepare-IsServer_of sys flags (f ∷ []) e = ground arith
prepare-IsServer_of sys flags (f ∷ g ∷ fs) e = ground arith

-- run starts to serve only with checked flags, and then with a handler that has a device exactly
-- if it is no proxy.
pub prepare-IsServer :
    (sys : System) (flags : Flags) (files : List File) {l : Listening} {h : Server}
    → prepare sys flags files ≡ ok (l, h)
    → IsChecked flags files × IsServer h
prepare-IsServer sys flags files e =
    (prepare-IsChecked sys flags files e, prepare-IsServer_of sys flags files e)
