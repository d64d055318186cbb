-- ===== src/Gpu/Report.antt =====
-- `tizen_gpu_dump_info` of shell/compositor/src/gpu-backend.c: the lines of the report, as the bytes of their
-- UTF-8, and how wide a terminal shows them.
use tizen_os.Base.{
  ℕ, zero, suc, ◌+◌, ◌-◌, ◌≤◌, ◌<◌, ◌≡◌, refl, ◌∙◌, Bool, true, false, ◌&&◌, Option, none, some,
  List, [], ◌∷◌, ◌++◌, map, arith, ltb, leb, if◌then◌else◌, length, All,
}
use tizen_os.Libc.{Bytes, codes}
use tizen_os.Libc.Numbers.{decimal}
use tizen_os.Libc.Text.{utf8}
use tizen_os.Libc.{str_case_eq, to_lower}
use tizen_os.Gpu.{
  unknown, nvidia, amd, intel, virtual, TizenGpuVendor, parse_vendor, auto, vulkan, gles2, pixman,
  TizenGpuConfig, TizenRendererType,
}
use tizen_os.Gpu.Renderer.{tizen_gpu_select_renderer, tizen_renderer_name, tizen_gpu_vendor_name}

unfoldable pub spaces : ℕ → Bytes
spaces zero = []
spaces (suc n) = b' ' ∷ spaces n

-- `%-32s`
abbrev pub pad_32 : Bytes → Bytes
pad_32 s = s ++ spaces (32 - length s)

abbrev row : Bytes → Bytes → Bytes
row label value = label ++ (pad_32 value ++ utf8 " ║")

abbrev check : Bool → Bytes
check b = if b then utf8 "yes ✓" else utf8 "no ✗"

abbrev pub shown_node : Bytes → Bytes
shown_node [] = codes "(none)"
shown_node (c ∷ cs) = c ∷ cs

unfoldable pub tizen_gpu_dump_info : Option TizenGpuConfig → List Bytes
tizen_gpu_dump_info none = []
tizen_gpu_dump_info (some config) =
    utf8 "╔══════════════════════════════════════════════════╗"
    ∷ utf8 "║           TizenOS GPU Backend Info               ║"
    ∷ utf8 "╠══════════════════════════════════════════════════╣"
    ∷ row (utf8 "║ Vendor:        ") config.vendor_name
    ∷ row (utf8 "║ Driver:        ") config.driver
    ∷ row (utf8 "║ Version:       ") config.driver_version
    ∷ row (utf8 "║ Render Node:   ") (shown_node config.render_node)
    ∷ row (utf8 "║ GPU Count:     ") (decimal config.gpu_count)
    ∷ utf8 "╠══════════════════════════════════════════════════╣"
    ∷ row (utf8 "║ GBM:           ") (check config.has_gbm)
    ∷ row (utf8 "║ Wayland:       ") (check config.wayland_capable)
    ∷ row (utf8 "║ XWayland HW:   ") (check config.xwayland_hw_accel)
    ∷ row (utf8 "║ Explicit Sync: ") (check config.explicit_sync)
    ∷ row (utf8 "║ PRIME:         ") (check config.prime_available)
    ∷ row (utf8 "║ Virtual:       ") (if config.is_virtual then codes "yes" else codes "no")
    ∷ row (utf8 "║ Modeset:       ") (check config.modeset_active)
    ∷ utf8 "╠══════════════════════════════════════════════════╣"
    ∷ row (utf8 "║ Selected:      ") (tizen_renderer_name (tizen_gpu_select_renderer (some config)))
    ∷ utf8 "╚══════════════════════════════════════════════════╝"
    ∷ []

-- A byte that goes on with a letter that was begun takes no column.
abbrev pub continues : ℕ → Bool
continues b = leb 128 b && ltb b 192

-- The letters of a line.
unfoldable pub columns : Bytes → ℕ
columns [] = 0
columns (b ∷ bs) = (if continues b then 0 else 1) + columns bs

columns-append : (s t : Bytes) → columns (s ++ t) ≡ columns s + columns t
unfolding columns
columns-append [] t = omega arith
columns-append (b ∷ bs) t = omega (arith, columns-append bs t)

columns-spaces : (n : ℕ) → columns (spaces n) ≡ n
unfolding columns spaces
columns-spaces zero = refl
columns-spaces (suc n) = omega (arith, columns-spaces n)

-- The width of a row with a value: `printf` pads by bytes.
unfoldable pub width : Bytes → ℕ
width value = 19 + columns value + (32 - length value)

columns-end : columns (utf8 " ║") ≡ 2
unfolding columns utf8
columns-end = refl

columns-row : (label value : Bytes) → columns label ≡ 17 → columns (row label value) ≡ width value
unfolding width
columns-row label value h =
    let end = utf8 " ║" in
    let gap = spaces (32 - length value) in
    let a = columns-append label (pad_32 value ++ end) in
    let b = columns-append (pad_32 value) end in
    let c = columns-append value gap in
    omega (arith, a, b, c, h, columns-spaces (32 - length value), columns-end)

columns-plain : (value : Bytes) → All (λ b. b < 128) value → columns value ≡ length value
unfolding columns
columns-plain [] h = refl
columns-plain (b ∷ bs) h = let rest = columns-plain bs h.1 in let low = h.0 in ground arith

width-check : (b : Bool) → width (check b) ≡ 49
unfolding width columns utf8
width-check true = refl
width-check false = refl

width-virtual : (b : Bool) → width (if b then codes "yes" else codes "no") ≡ 51
unfolding width columns
width-virtual true = refl
width-virtual false = refl

width-renderer : (type : TizenRendererType) → width (tizen_renderer_name type) ≡ 51
unfolding width columns tizen_renderer_name
width-renderer auto = refl
width-renderer vulkan = refl
width-renderer gles2 = refl
width-renderer pixman = refl

-- A value of at most 32 bytes of ASCII gives a row of 51 columns.
width-plain : (value : Bytes) → All (λ b. b < 128) value → length value ≤ 32 → width value ≡ 51
unfolding width
width-plain value h k = let e = columns-plain value h in omega arith

-- The report for any configuration has nineteen lines, and nothing is printed without one. The lines
-- that draw the frame are 52 columns wide. The five rows of texts and numbers are as wide as the
-- value makes them, its columns and 19, and one more for each byte that it lacks of 32. The rows of
-- the six capabilities are 49 columns wide, set or not, and those of the virtual GPU and of the
-- renderer are 51: no row of these closes the frame.
pub dump_info_lem :
    (config : TizenGpuConfig)
    → (tizen_gpu_dump_info none ≡ [])
      × (map columns (tizen_gpu_dump_info (some config))
          ≡ 52
            ∷ 52
            ∷ 52
            ∷ width config.vendor_name
            ∷ width config.driver
            ∷ width config.driver_version
            ∷ width (shown_node config.render_node)
            ∷ width (decimal config.gpu_count)
            ∷ 52
            ∷ 49
            ∷ 49
            ∷ 49
            ∷ 49
            ∷ 49
            ∷ 51
            ∷ 49
            ∷ 52
            ∷ 51
            ∷ 52
            ∷ [])
unfolding tizen_gpu_dump_info width columns utf8
dump_info_lem config = (
  refl,
  λ i.
      52
      ∷ 52
      ∷ 52
      ∷ columns-row (utf8 "║ Vendor:        ") config.vendor_name refl i
      ∷ columns-row (utf8 "║ Driver:        ") config.driver refl i
      ∷ columns-row (utf8 "║ Version:       ") config.driver_version refl i
      ∷ columns-row (utf8 "║ Render Node:   ") (shown_node config.render_node) refl i
      ∷ columns-row (utf8 "║ GPU Count:     ") (decimal config.gpu_count) refl i
      ∷ 52
      ∷ (columns-row (utf8 "║ GBM:           ") (check config.has_gbm) refl
            ∙ width-check config.has_gbm)
          i
      ∷ (columns-row (utf8 "║ Wayland:       ") (check config.wayland_capable) refl
            ∙ width-check config.wayland_capable)
          i
      ∷ (columns-row (utf8 "║ XWayland HW:   ") (check config.xwayland_hw_accel) refl
            ∙ width-check config.xwayland_hw_accel)
          i
      ∷ (columns-row (utf8 "║ Explicit Sync: ") (check config.explicit_sync) refl
            ∙ width-check config.explicit_sync)
          i
      ∷ (columns-row (utf8 "║ PRIME:         ") (check config.prime_available) refl
            ∙ width-check config.prime_available)
          i
      ∷ (columns-row (utf8 "║ Virtual:       ")
              (if config.is_virtual then codes "yes" else codes "no") refl
            ∙ width-virtual config.is_virtual)
          i
      ∷ (columns-row (utf8 "║ Modeset:       ") (check config.modeset_active) refl
            ∙ width-check config.modeset_active)
          i
      ∷ 52
      ∷ (columns-row (utf8 "║ Selected:      ")
              (tizen_renderer_name (tizen_gpu_select_renderer (some config))) refl
            ∙ width-renderer (tizen_gpu_select_renderer (some config)))
          i
      ∷ 52
      ∷ [],
)

-- The name of a vendor is read back as that vendor, by the function that reads the file of the
-- configuration.
vendor-roundtrip : (vendor : TizenGpuVendor) → parse_vendor (tizen_gpu_vendor_name vendor) ≡ vendor
unfolding parse_vendor tizen_gpu_vendor_name str_case_eq to_lower
vendor-roundtrip unknown = refl
vendor-roundtrip nvidia = refl
vendor-roundtrip amd = refl
vendor-roundtrip intel = refl
vendor-roundtrip virtual = refl
