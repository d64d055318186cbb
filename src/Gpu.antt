-- ===== src/Gpu.antt =====
-- The types of shell/compositor/src/gpu-backend.h, and how gpu-backend.c reads a configuration from
-- the lines of the file `/run/tizenos/gpu-info.env`. A pointer that may be NULL is an `Option`.
pub mod Renderer
pub mod Report
pub mod Environment
pub mod Choice
pub mod Parsing
pub mod Bounds
pub mod Tests
use tizen_os.Base.{
  ℕ, zero, suc, ◌+◌, ◌-◌, ◌*◌, ◌/◌, ◌%◌, ◌^◌, ◌≤◌, ◌<◌, min, ◌≡◌, refl, sym, ap, ◌∙◌, ◌≢◌, ◌↔◌, ◌⊎◌,
  inl, inr, Bool, true, false, not, ◌&&◌, ◌||◌, Option, none, some, List, [], ◌∷◌, ◌++◌, map,
  append_assoc, append-nil, arith, ltb, leb, ◌==◌, if◌then◌else◌, ==_iff, Bool-cases, Option-cases,
  length, take, drop, get_elem?, set, All, join, length-append, take-append-drop, length-take,
  length-drop, take_all,
}
use tizen_os.Base.Int.{ℤ, pos, to_u32}
use tizen_os.Libc.{Bytes, codes, str_eq, str_case_eq, c_str, chomp, split_at}
use tizen_os.Libc.Lines.{lines}
use tizen_os.Libc.Numbers.{atoi}

pub data TizenRendererType : Type 0 where
  auto vulkan gles2 pixman : TizenRendererType

pub data TizenGpuVendor : Type 0 where
  unknown nvidia amd intel virtual : TizenGpuVendor

pub data TizenGpuResult : Type 0 where
  gpu_ok err_no_file err_parse err_no_gpu err_no_wayland : TizenGpuResult

pub record TizenGpuConfig : Type 0 where
  pub vendor : TizenGpuVendor
  pub vendor_name : Bytes
  pub driver : Bytes
  pub driver_version : Bytes
  pub render_node : Bytes
  pub has_gbm : Bool
  pub wayland_capable : Bool
  pub xwayland_hw_accel : Bool
  pub explicit_sync : Bool
  pub prime_available : Bool
  pub is_virtual : Bool
  pub modeset_active : Bool
  pub nvidia_major_version : ℕ
  pub igpu_driver : Bytes
  pub dgpu_driver : Bytes
  pub gpu_count : ℤ

pub parse_bool : Bytes → Bool
parse_bool val =
    str_case_eq val (codes "yes") || str_case_eq val (codes "1") || str_case_eq val (codes "true")

pub parse_vendor : Bytes → TizenGpuVendor
parse_vendor val =
    if str_case_eq val (codes "nvidia")
    then nvidia
    else if str_case_eq val (codes "amd")
    then amd
    else if str_case_eq val (codes "intel")
    then intel
    else if str_case_eq val (codes "virtual")
    then virtual
    else unknown

-- `safe_copy` into a buffer of `dst_size` bytes, of at least 1: the string that it then holds.
pub safe_copy : Bytes → ℕ → Bytes
safe_copy src dst_size = take (dst_size - 1) src

abbrev max_line_len : ℕ
max_line_len = 512

-- `memset (config, 0, …)`, and the vendor that is then set.
pub no_config : TizenGpuConfig
no_config = record {
  vendor = unknown;
  vendor_name = [];
  driver = [];
  driver_version = [];
  render_node = [];
  has_gbm = false;
  wayland_capable = false;
  xwayland_hw_accel = false;
  explicit_sync = false;
  prime_available = false;
  is_virtual = false;
  modeset_active = false;
  nvidia_major_version = 0;
  igpu_driver = [];
  dgpu_driver = [];
  gpu_count = pos 0;
}

-- The ladder of `strcmp (key, …)`. The count of GPUs is an integer without the bound of an `int`.
pub set_key : Bytes → Bytes → TizenGpuConfig → TizenGpuConfig
set_key key val config =
    if str_eq key (codes "GPU_VENDOR")
    then record config { vendor = parse_vendor val; vendor_name = safe_copy val 32 }
    else if str_eq key (codes "GPU_DRIVER")
    then record config { driver = safe_copy val 32 }
    else if str_eq key (codes "GPU_DRIVER_VERSION")
    then record config { driver_version = safe_copy val 32 }
    else if str_eq key (codes "GPU_HAS_GBM")
    then record config { has_gbm = parse_bool val }
    else if str_eq key (codes "GPU_PRIME_AVAILABLE")
    then record config { prime_available = parse_bool val }
    else if str_eq key (codes "GPU_WAYLAND_CAPABLE")
    then record config { wayland_capable = parse_bool val }
    else if str_eq key (codes "GPU_XWAYLAND_HW_ACCEL")
    then record config { xwayland_hw_accel = parse_bool val }
    else if str_eq key (codes "GPU_EXPLICIT_SYNC")
    then record config { explicit_sync = parse_bool val }
    else if str_eq key (codes "GPU_RENDER_NODE")
    then record config { render_node = safe_copy val 64 }
    else if str_eq key (codes "GPU_IS_VIRTUAL")
    then record config { is_virtual = parse_bool val }
    else if str_eq key (codes "GPU_MODESET_ACTIVE")
    then record config { modeset_active = parse_bool val }
    else if str_eq key (codes "GPU_NVIDIA_VERSION")
    then record config { nvidia_major_version = to_u32 (atoi val) }
    else if str_eq key (codes "GPU_IGPU_DRIVER")
    then record config { igpu_driver = safe_copy val 32 }
    else if str_eq key (codes "GPU_DGPU_DRIVER")
    then record config { dgpu_driver = safe_copy val 32 }
    else if str_eq key (codes "GPU_COUNT")
    then record config { gpu_count = atoi val }
    else config

-- Behind the tests on the first byte: the line is cut at its end, and split at `=`.
pub apply_entry : Bytes → TizenGpuConfig → TizenGpuConfig
apply_entry line config = elim (split_at b'=' (chomp line)) [
  | none ↦ config
  | some (key, val) ↦ set_key key val config
]

-- One round of the loop, on the string in the buffer.
pub apply_line : Bytes → TizenGpuConfig → TizenGpuConfig
apply_line [] config = config
apply_line (c ∷ cs) config = if c == b'#' || c == b'\n' then config else apply_entry (c ∷ cs) config

pub apply_lines : List Bytes → TizenGpuConfig → TizenGpuConfig
apply_lines [] config = config
apply_lines (l ∷ ls) config = apply_lines ls (apply_line (c_str l) config)

is_zero : ℤ → Bool
is_zero (pos zero) = true
is_zero _ = false

is_unknown : TizenGpuVendor → Bool
is_unknown unknown = true
is_unknown _ = false

-- The validation behind the loop.
pub validate : TizenGpuConfig → TizenGpuResult
validate config =
    if is_zero config.gpu_count && is_unknown config.vendor then err_no_gpu else gpu_ok

-- `tizen_gpu_detect`: whether `config` is not NULL, and the bytes of the file if it opens; the result,
-- and what `*config` then is.
pub tizen_gpu_detect : Bool → Option Bytes → TizenGpuResult × Option TizenGpuConfig
tizen_gpu_detect false file = (err_parse, none)
tizen_gpu_detect true none = (err_no_file, some no_config)
tizen_gpu_detect true (some bytes) =
    let config = apply_lines (lines (max_line_len - 1) bytes) no_config in
    (validate config, some config)
