-- ===== src/Gpu/Parsing.antt =====
-- `tizen_gpu_detect` reads back every file of the form that base/gpu/scripts/tizenos-gpu-detect.sh
-- writes: comments, blank lines and `KEY=VALUE` lines.
use mathlib.Core.Path.{subst, fun_ext}
use tizen_os.Base.{
  ℕ, ◌≡◌, refl, sym, ap, ◌∙◌, inl, inr, Bool, true, false, Option, none, some, List, [], ◌∷◌, ◌++◌,
  arith, All, ◌≢◌, if◌then◌else◌, Bool-cases,
}
use tizen_os.Base.Int.{pos, to_u32}
use tizen_os.Libc.{Bytes, codes, str_eq, c_str}
use tizen_os.Libc.Numbers.{atoi}
use tizen_os.Libc.Laws.{str_eq_iff, c_str_line, chomp_line, split_at_first}
use tizen_os.Libc.Lines.{Without, AreLines, unlines, terminated, lines-unlines}
use tizen_os.Gpu.{
  TizenGpuConfig, unknown, parse_bool, parse_vendor, safe_copy, no_config, set_key, apply_entry,
  apply_line, apply_lines, tizen_gpu_detect,
}

pub data Item : Type 0 where
  blank : Item
  comment : Bytes → Item
  entry : Bytes → Bytes → Item

abbrev pub show : Item → Bytes
show blank = []
show (comment text) = b'#' ∷ text
show (entry key val) = key ++ b'=' ∷ val

abbrev pub show_all : List Item → List Bytes
show_all [] = []
show_all (x ∷ xs) = show x ∷ show_all xs

abbrev IsKey : Bytes → Type 0
IsKey [] = ⊥
IsKey (c ∷ cs) = (c ≢ b'#') × Without b'=' (c ∷ cs)

-- No byte of the text ends the line or the string.
abbrev IsText : Bytes → Type 0
IsText s = Without 0 s × Without b'\r' s × Without b'\n' s

abbrev IsItem : Item → Type 0
IsItem blank = Unit
IsItem (comment text) = Without 0 text
IsItem (entry key val) = IsKey key × IsText (key ++ b'=' ∷ val)

-- Each line fits the buffer of 512 bytes with its newline and the NUL.
abbrev pub IsFile : List Item → Type 0
IsFile xs = AreLines 511 (show_all xs) × All IsItem xs

-- What the file says: the entries, first to last.
abbrev pub apply_items : List Item → TizenGpuConfig → TizenGpuConfig
apply_items [] config = config
apply_items (entry key val ∷ xs) config = apply_items xs (set_key key val config)
apply_items (_ ∷ xs) config = apply_items xs config

apply_entry-entry :
    (key val : Bytes) (config : TizenGpuConfig)
    → IsItem (entry key val)
    → apply_line (c_str (show (entry key val) ++ b'\n' ∷ [])) config ≡ set_key key val config
unfolding apply_line apply_entry
apply_entry-entry [] val config h = absurd h.0
apply_entry-entry (c ∷ cs) val config h =
    let s : Bytes = c ∷ cs ++ b'=' ∷ val in
    ground
      (arith, c_str_line s h.1.0, chomp_line s h.1.1 h.1.2, split_at_first b'=' (c ∷ cs) val h.0.1)

apply_line-item :
    (x : Item) (xs : List Item) (config : TizenGpuConfig)
    → IsItem x
    → apply_items xs (apply_line (c_str (show x ++ b'\n' ∷ [])) config)
      ≡ apply_items (x ∷ xs) config
unfolding apply_line c_str
apply_line-item blank xs config h = refl
apply_line-item (comment text) xs config h = refl
apply_line-item (entry key val) xs config h =
    ap (apply_items xs) (apply_entry-entry key val config h)

apply_lines-items :
    (xs : List Item) (config : TizenGpuConfig)
    → All IsItem xs
    → apply_lines (terminated (show_all xs)) config ≡ apply_items xs config
unfolding apply_lines
apply_lines-items [] config h = refl
apply_lines-items (x ∷ xs) config h =
    apply_lines-items xs (apply_line (c_str (show x ++ b'\n' ∷ [])) config) h.1
    ∙ apply_line-item x xs config h.0

-- What the file says of a key: the value of its last entry.
abbrev pub last_value : Bytes → List Item → Option Bytes
last_value key [] = none
last_value key (entry j val ∷ xs) = elim (last_value key xs) [
  | some later ↦ some later
  | none ↦ if str_eq j key then some val else none
]
last_value key (_ ∷ xs) = last_value key xs

abbrev text : ℕ → Option Bytes → Bytes
text size none = []
text size (some val) = safe_copy val size

abbrev flag : Option Bytes → Bool
flag none = false
flag (some val) = parse_bool val

-- The configuration, field by field, from what is said of each key.
abbrev pub config_of : (Bytes → Option Bytes) → TizenGpuConfig
config_of said = record {
  vendor = elim (said (codes "GPU_VENDOR")) [ none ↦ unknown | some val ↦ parse_vendor val ];
  vendor_name = text 32 (said (codes "GPU_VENDOR"));
  driver = text 32 (said (codes "GPU_DRIVER"));
  driver_version = text 32 (said (codes "GPU_DRIVER_VERSION"));
  render_node = text 64 (said (codes "GPU_RENDER_NODE"));
  has_gbm = flag (said (codes "GPU_HAS_GBM"));
  wayland_capable = flag (said (codes "GPU_WAYLAND_CAPABLE"));
  xwayland_hw_accel = flag (said (codes "GPU_XWAYLAND_HW_ACCEL"));
  explicit_sync = flag (said (codes "GPU_EXPLICIT_SYNC"));
  prime_available = flag (said (codes "GPU_PRIME_AVAILABLE"));
  is_virtual = flag (said (codes "GPU_IS_VIRTUAL"));
  modeset_active = flag (said (codes "GPU_MODESET_ACTIVE"));
  nvidia_major_version = elim (said (codes "GPU_NVIDIA_VERSION")) [
    | none ↦ 0
    | some val ↦ to_u32 (atoi val)
  ];
  igpu_driver = text 32 (said (codes "GPU_IGPU_DRIVER"));
  dgpu_driver = text 32 (said (codes "GPU_DGPU_DRIVER"));
  gpu_count = elim (said (codes "GPU_COUNT")) [ none ↦ pos 0 | some val ↦ atoi val ];
}

abbrev keys : List Bytes
keys =
    codes "GPU_VENDOR"
    ∷ codes "GPU_DRIVER"
    ∷ codes "GPU_DRIVER_VERSION"
    ∷ codes "GPU_HAS_GBM"
    ∷ codes "GPU_PRIME_AVAILABLE"
    ∷ codes "GPU_WAYLAND_CAPABLE"
    ∷ codes "GPU_XWAYLAND_HW_ACCEL"
    ∷ codes "GPU_EXPLICIT_SYNC"
    ∷ codes "GPU_RENDER_NODE"
    ∷ codes "GPU_IS_VIRTUAL"
    ∷ codes "GPU_MODESET_ACTIVE"
    ∷ codes "GPU_NVIDIA_VERSION"
    ∷ codes "GPU_IGPU_DRIVER"
    ∷ codes "GPU_DGPU_DRIVER"
    ∷ codes "GPU_COUNT"
    ∷ []

-- What is said after one entry more.
abbrev say : Bytes → Bytes → (Bytes → Option Bytes) → Bytes → Option Bytes
say key val said j = if str_eq key j then some val else said j

-- A property of each key of a list, and of those outside of it, is one of all keys.
by_key :
    (P : Bytes → Type 0) (key : Bytes) (ks : List Bytes)
    → All P ks
    → (All (λ k. str_eq key k ≡ false) ks → P key)
    → P key
by_key P key [] known other = other tt
by_key P key (k ∷ ks) known other = elim (Bool-cases (str_eq key k)) [
  | inl t ↦ subst P (sym ((str_eq_iff key k).0 t)) known.0
  | inr f ↦ by_key P key ks known.1 (λ fs. other (f, fs))
]

-- An entry of a known key sets its fields and no other, and one of another key sets none.
set_key-config_of :
    (key val : Bytes) (said : Bytes → Option Bytes)
    → set_key key val (config_of said) ≡ config_of (say key val said)
unfolding set_key str_eq
set_key-config_of key val said =
    by_key (λ k. set_key k val (config_of said) ≡ config_of (say k val said)) key keys
      (
        refl,
        (
          refl,
          (
            refl,
            (
              refl,
              (
                refl,
                (refl, (refl, (refl, (refl, (refl, (refl, (refl, (refl, (refl, (refl, tt)))))))))),
              ),
            ),
          ),
        ),
      )
      (λ fs. ground arith)

or_said : Option Bytes → Option Bytes → Option Bytes
or_said none earlier = earlier
or_said (some val) earlier = some val

apply_items-config_of :
    (xs : List Item) (said : Bytes → Option Bytes)
    → apply_items xs (config_of said) ≡ config_of (λ key. or_said (last_value key xs) (said key))
unfolding or_said
apply_items-config_of [] said = refl
apply_items-config_of (blank ∷ xs) said = apply_items-config_of xs said
apply_items-config_of (comment text ∷ xs) said = apply_items-config_of xs said
apply_items-config_of (entry j val ∷ xs) said =
    ap (apply_items xs) (set_key-config_of j val said)
    ∙ apply_items-config_of xs (say j val said)
    ∙ ap config_of (fun_ext (λ key. said_later key (last_value key xs)))
  where
    said_later :
        (key : Bytes) (later : Option Bytes)
        → or_said later (say j val said key)
          ≡ or_said
              (elim later [ some v ↦ some v | none ↦ if str_eq j key then some val else none ])
              (said key)
    said_later key none = ground arith
    said_later key (some v) = refl

apply_items_lem : (xs : List Item) → apply_items xs no_config ≡ config_of (λ key. last_value key xs)
unfolding no_config or_said
apply_items_lem xs =
    apply_items-config_of xs (λ key. none)
    ∙ ap config_of (fun_ext (λ key. or_none (last_value key xs)))
  where
    or_none : (v : Option Bytes) → or_said v none ≡ v
    or_none none = refl
    or_none (some val) = refl

-- Reading the printed form of a file fills each field of the configuration, from the value of the last entry of its key, converted as the field's type is and cut
-- to its size, and with the field's default where no entry has the key; entries of other keys,
-- comments and blank lines have no effect. The file's lines are shorter than 511 bytes, its keys are
-- not empty, do not start with `#` and hold no `=`, and no NUL, carriage return or newline stands
-- within an entry.
pub detect-unlines :
    (xs : List Item)
    → IsFile xs
    → (tizen_gpu_detect true (some (unlines (show_all xs)))).1
      ≡ some (config_of (λ key. last_value key xs))
unfolding tizen_gpu_detect
detect-unlines xs h = ground (
  arith,
  lines-unlines 511 (show_all xs) h.0,
  apply_lines-items xs no_config h.1,
  apply_items_lem xs,
)
