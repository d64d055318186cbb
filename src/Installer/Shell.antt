-- ===== src/Installer/Shell.antt =====
-- The machine that the installer runs on: what its commands answer, which files are there and which
-- can be written. The commands run and the files written are the state.
use tizen_os.Base.{
  ℕ, Bool, false, Option, none, some, List, [], ◌∷◌, ◌++◌, ◌==◌, length, ◌≡◌, ◌∙◌, append_assoc,
  append-nil,
}
use tizen_os.Libc.{Bytes, snprintf}

-- `answer n c` is the wait status of the `n`-th command, `c`: none where it does not start; the exit
-- code stands above the low eight bits, and a signal in the low seven.
pub record Host : Type 0 where
  pub answer : ℕ → Bytes → Option ℕ
  pub can_write : Bytes → Bool
  pub has_path : Bytes → Bool
  pub first_line : Bytes → Option Bytes

pub record Trace : Type 0 where
  pub commands : List Bytes
  pub files : List (Bytes × Bytes)
  pub dirs : List Bytes

abbrev pub M : Type 0 → Type 0
M A = Trace → A × Trace

infixl 5 ◌>>=◌ ◌>>◌
abbrev pub ◌>>=◌ : {A B : Type 0} → M A → (A → M B) → M B
◌>>=◌ m f t = let (a, t') = m t in f a t'

abbrev pub ◌>>◌ : {A B : Type 0} → M A → M B → M B
◌>>◌ m k t = let (a, t') = m t in k t'

abbrev pub return : {A : Type 0} → A → M A
return a t = (a, t)

abbrev pub issue : Bytes → Trace → Trace
issue cmd t = record t { commands = t.commands ++ cmd ∷ [] }

module _ (host : Host) where
  -- `system (cmd)`
  abbrev pub system : Bytes → M (Option ℕ)
  system cmd t = (host.answer (length t.commands) cmd, issue cmd t)

  -- `snprintf (cmd, size, …); system (cmd)`
  abbrev pub system_in : ℕ → Bytes → M (Option ℕ)
  system_in size text = system (snprintf size text)

-- `fopen (path, "w")` and what is then written, where it opens.
abbrev pub write_file : Bytes → Bytes → M (Unit {0})
write_file path text t = (tt, record t { files = t.files ++ (path, text) ∷ [] })

-- `system (…) == 0`
abbrev pub succeeded : Option ℕ → Bool
succeeded none = false
succeeded (some status) = status == 0

-- Commands whose answers are not read, one after the other, each formatted in a buffer of `size`.
unfoldable pub run_all : Host → ℕ → List Bytes → M (Unit {0})
run_all host size [] t = (tt, t)
run_all host size (c ∷ cs) t = run_all host size cs (system_in host size c t).1

abbrev pub formatted : ℕ → List Bytes → List Bytes
formatted size [] = []
formatted size (c ∷ cs) = snprintf size c ∷ formatted size cs

-- The trace with commands added.
abbrev pub issue_all : List Bytes → Trace → Trace
issue_all cs t = record t { commands = t.commands ++ cs }

-- They all run, whatever they answer.
pub run_all_lem :
    (host : Host) (size : ℕ) (cs : List Bytes) (t : Trace)
    → run_all host size cs t ≡ (tt, issue_all (formatted size cs) t)
unfolding run_all
run_all_lem host size [] t = simp append-nil
run_all_lem host size (c ∷ cs) t =
    run_all_lem host size cs (system_in host size c t).1 ∙ simp append_assoc

-- `mkdir (path, 0755)`
abbrev pub make_dir : Bytes → M (Unit {0})
make_dir path t = (tt, record t { dirs = t.dirs ++ path ∷ [] })
