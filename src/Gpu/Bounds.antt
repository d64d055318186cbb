-- ===== src/Gpu/Bounds.antt =====
-- Whatever the file holds, the strings of the configuration fit their arrays.
use tizen_os.Base.{
  ℕ, ◌-◌, ◌^◌, ◌≤◌, ◌<◌, arith, length, length-take, ◌≡◌, refl, ◌≢◌, ◌⊎◌, inl, inr, true, Option,
  none, some, List, [], ◌∷◌, Option-cases,
}
use tizen_os.Libc.Numbers.{atoi}
use tizen_os.Libc.{Bytes}
use tizen_os.Base.Int.{to_u32, pos}
use tizen_os.Gpu.{
  validate, TizenGpuResult, gpu_ok, err_no_file, err_no_gpu, unknown, TizenGpuConfig, safe_copy,
  set_key, apply_line, apply_lines, no_config, TizenGpuResult, tizen_gpu_detect, apply_entry, c_str,
  is_zero, split_at, unknown, is_unknown, chomp, err_no_gpu, gpu_ok, lines,
}

-- The array sizes of `TizenGpuConfig`, less the terminating NUL, and the range of a `uint32_t`.
pub record IsBounded (config : TizenGpuConfig) : Type 0 where
  pub vendor_name_fits : length config.vendor_name ≤ 31
  pub driver_fits : length config.driver ≤ 31
  pub driver_version_fits : length config.driver_version ≤ 31
  pub render_node_fits : length config.render_node ≤ 63
  pub igpu_driver_fits : length config.igpu_driver ≤ 31
  pub dgpu_driver_fits : length config.dgpu_driver ≤ 31
  pub version_fits : config.nvidia_major_version < 2 ^ 32

length-safe_copy : (src : Bytes) (dst_size : ℕ) → length (safe_copy src dst_size) ≤ dst_size - 1
unfolding safe_copy
length-safe_copy src dst_size = omega (arith, length-take (dst_size - 1) src)

to_u32-lt : (i : _) → to_u32 i < 2 ^ 32
unfolding to_u32
to_u32-lt i = ground arith

set_key-IsBounded :
    (key val : Bytes) (config : TizenGpuConfig)
    → IsBounded config
    → IsBounded (set_key key val config)
unfolding set_key
set_key-IsBounded key val config v =
    ground (arith, length-safe_copy val 32, length-safe_copy val 64, to_u32-lt (atoi val))

apply_line-IsBounded :
    (l : Bytes) (config : TizenGpuConfig) → IsBounded config → IsBounded (apply_line l config)
unfolding apply_line apply_entry
apply_line-IsBounded [] config v = v
apply_line-IsBounded (c ∷ cs) config v = elim (Option-cases (split_at b'=' (chomp (c ∷ cs)))) [
  | inl e ↦ ground arith
  | inr ((key, val), e) ↦ ground (arith, set_key-IsBounded key val config v)
]

apply_lines-IsBounded :
    (ls : List Bytes) (config : TizenGpuConfig)
    → IsBounded config
    → IsBounded (apply_lines ls config)
unfolding apply_lines
apply_lines-IsBounded [] config v = v
apply_lines-IsBounded (l ∷ ls) config v =
    apply_lines-IsBounded ls (apply_line (c_str l) config) (apply_line-IsBounded (c_str l) config v)

no_config-IsBounded : IsBounded no_config
unfolding no_config
no_config-IsBounded = omega arith

-- What the result says of the configuration behind it.
abbrev pub Agrees : TizenGpuResult → TizenGpuConfig → Type 0
Agrees gpu_ok config = (config.gpu_count ≢ pos 0) ⊎ (config.vendor ≢ unknown)
Agrees err_no_gpu config = (config.gpu_count ≡ pos 0) × (config.vendor ≡ unknown)
Agrees err_no_file config = config ≡ no_config
Agrees _ config = ⊥

validate-Agrees : (config : TizenGpuConfig) → Agrees (validate config) config
unfolding validate is_zero is_unknown
validate-Agrees config = ground arith

-- For a file of any content, and for one that does not open, `tizen_gpu_detect` fills in a
-- configuration whose strings fit their arrays, and its result tells whether the file opened and
-- whether a GPU count other than 0 or a known vendor was read.
pub detect_lem :
    (file : Option Bytes)
    → (config : TizenGpuConfig) × ((tizen_gpu_detect true file).1 ≡ some config)
      × IsBounded config
      × Agrees (tizen_gpu_detect true file).0 config
unfolding tizen_gpu_detect
detect_lem none = (no_config, refl, no_config-IsBounded, refl)
detect_lem (some bytes) =
    let config = apply_lines (lines 511 bytes) no_config in
    (
      config,
      refl,
      apply_lines-IsBounded (lines 511 bytes) no_config no_config-IsBounded,
      validate-Agrees config,
    )
