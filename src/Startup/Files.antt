-- ===== src/Startup/Files.antt =====
-- srvfb.go, init: the files of socket activation.
use Prim.Native.String.{String}
use native.Mathlib.Nat.{add-zero, zero-add}
use text.Mathlib.Text.{◌==◌ as str_eq}
use srvfb.Base.{
  ℕ, zero, suc, ◌+◌, ◌-◌, ◌<◌, ◌≡◌, refl, ap, ◌∙◌, ◌≢◌, false, Option, some, List, [], ◌∷◌, ◌++◌,
  arith, if◌then◌else◌, length, get_elem?, get_or, replicate,
}
use srvfb.Startup.{Env, ℤ, pos, init, names_of, open_files, pad_names}

get_or-replicate :
    (m i : ℕ) → i < m → ◌≡◌ {A = String} (get_or (replicate m "unknown") i "") "unknown"
get_or-replicate zero i h = absurd (omega arith)
get_or-replicate (suc m) zero h = refl
get_or-replicate (suc m) (suc i) h = get_or-replicate m i (omega arith)

get_or-padded :
    (names : List String) (n i : ℕ)
    → i < n
    → get_or (names ++ replicate (n - length names) "unknown") i "" ≡ get_or names i "unknown"
get_or-padded [] n i h = get_or-replicate (n - 0) i (omega arith)
get_or-padded (x ∷ names) n zero h = refl
get_or-padded (x ∷ names) zero (suc i) h = absurd (omega arith)
get_or-padded (x ∷ names) (suc n) (suc i) h =
    let e : suc n - suc (length names) ≡ n - length names = omega arith in
    rw e (get_or-padded names n i (omega arith))

get_or-pad :
    (names : List String) (n i : ℕ)
    → i < n
    → get_or (pad_names names n) i "" ≡ get_or names i "unknown"
unfolding pad_names
get_or-pad names n i h = get_or-padded names n i h

-- Go's int at index i of the files.
get_elem?-open_files :
    (left start i : ℕ) (names : List String)
    → i < left
    → get_elem? (open_files left start names) i
      ≡ some (record { fd = 3 + (start + i); name = get_or names (start + i) "" })
unfolding open_files
get_elem?-open_files zero start i names h = absurd (omega arith)
get_elem?-open_files (suc left) start zero names h = rw add-zero
get_elem?-open_files (suc left) start (suc i) names h =
    let e : start + suc i ≡ start + 1 + i = omega arith in
    rw e (get_elem?-open_files left (start + 1) i names (omega arith))

length-open_files :
    (left start : ℕ) (names : List String) → length (open_files left start names) ≡ left
unfolding open_files
length-open_files zero start names = refl
length-open_files (suc left) start names = ap suc (length-open_files left (start + 1) names)

module _ (atoi : String → Option ℤ) (split : String → List String) (getpid : ℕ) where
  files_named :
      (env : Env) (fds : ℕ)
      → str_eq env.listen_pid "" ≡ false
      → atoi env.listen_pid ≡ some (pos getpid)
      → str_eq env.listen_fds "" ≡ false
      → atoi env.listen_fds ≡ some (pos fds)
      → (init atoi split getpid env).listen_files
        ≡ open_files fds 0
            (pad_names (if str_eq env.listen_fdnames "" then [] else split env.listen_fdnames) fds)
  unfolding init names_of
  files_named env fds a b c d = ground arith

  -- If LISTEN_PID is this process's id and LISTEN_FDS a number, init opens that many files, the i-th
  -- with the descriptor 3 + i and the i-th of the names, or the name `unknown` if there are fewer.
  pub init-files :
      (env : Env) (fds : ℕ)
      → str_eq env.listen_pid "" ≡ false
      → atoi env.listen_pid ≡ some (pos getpid)
      → str_eq env.listen_fds "" ≡ false
      → atoi env.listen_fds ≡ some (pos fds)
      → let names = if str_eq env.listen_fdnames "" then [] else split env.listen_fdnames in
        let files = (init atoi split getpid env).listen_files in
        (length files ≡ fds)
        × ((i : ℕ)
            → i < fds
            → get_elem? files i ≡ some (record { fd = 3 + i; name = get_or names i "unknown" }))
  init-files env fds a b c d = rw (files_named env fds a b c d) (
    length-open_files fds 0 _,
    λ i h.
        get_elem?-open_files fds 0 i _ h
        ∙ rw (
          zero-add,
          get_or-pad (if str_eq env.listen_fdnames "" then [] else split env.listen_fdnames) fds i
              h,
        ),
  )

  -- With the process id of another process, or without one, init opens no file.
  pub init_other :
      (env : Env)
      → atoi env.listen_pid ≢ some (pos getpid)
      → (init atoi split getpid env).listen_files ≡ []
  unfolding init
  init_other env h = ground arith
