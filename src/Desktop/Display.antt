-- ===== src/Desktop/Display.antt =====
-- shell/settings/src/display.c: the command that sets a display up, on the machine of the installer's
-- `Shell`, and the widgets, whose buttons are connected to nothing. The text of the scale, `%.2f` of
-- a floating-point number, is a parameter.
use tizen_os.Libc.Text.{utf8}
use tizen_os.Libc.{Bytes, codes}
use tizen_os.Base.{
  ℕ, ◌+◌, ◌*◌, ◌≤◌, ◌≡◌, ap, Bool, true, false, none, List, [], ◌∷◌, ◌++◌, arith, if◌then◌else◌,
  length, length-append, take_all,
}
use tizen_os.Gtk.{Widget, label, button, drop_down, box, no_more, append}
use tizen_os.Installer.Shell.{Host, M, ◌>>◌, return, system_in, Trace}

abbrev mirror_command : Bytes → Bytes → Bytes → Bytes
mirror_command output_name mode scale =
    codes "wlr-randr --output "
    ++ (output_name
        ++ (codes " --mode "
            ++ (mode
                ++ (codes " --scale "
                    ++ (scale
                        ++ (codes " --same-as eDP-1 2>/dev/null || xrandr --output "
                            ++ (output_name ++ codes " --same-as eDP-1")))))))

abbrev extend_command : Bytes → Bytes → Bytes → Bytes
extend_command output_name mode scale =
    codes "wlr-randr --output "
    ++ (output_name
        ++ (codes " --mode "
            ++ (mode
                ++ (codes " --scale "
                    ++ (scale
                        ++ (codes " --right-of eDP-1 2>/dev/null || xrandr --output "
                            ++ (output_name ++ codes " --auto --right-of eDP-1")))))))

unfoldable pub display_apply_config : Host → Bytes → Bytes → Bytes → Bool → M (Unit {0})
display_apply_config host output_name mode scale mirror = do
  system_in host 512 (
      if mirror
      then mirror_command output_name mode scale
      else extend_command output_name mode scale)
  return tt

-- The bytes of the two commands besides the names and the scale.
fixed_bytes : Bool → ℕ
fixed_bytes true = 100
fixed_bytes false = 109

command_of : Bytes → Bytes → Bytes → Bool → Bytes
command_of output_name mode scale mirror =
    if mirror then mirror_command output_name mode scale else extend_command output_name mode scale

length-command :
    (output_name mode scale : Bytes) (mirror : Bool)
    → length (command_of output_name mode scale mirror)
      ≡ fixed_bytes mirror + 2 * length output_name + length mode + length scale
unfolding command_of fixed_bytes
length-command output_name mode scale true =
    let t4 = output_name ++ codes " --same-as eDP-1" in
    let t3 = codes " --same-as eDP-1 2>/dev/null || xrandr --output " ++ t4 in
    let t2 = codes " --scale " ++ (scale ++ t3) in
    let t1 = codes " --mode " ++ (mode ++ t2) in
    omega (
      arith,
      length-append output_name t1,
      length-append mode t2,
      length-append scale t3,
      length-append output_name (codes " --same-as eDP-1"),
    )
length-command output_name mode scale false =
    let t4 = output_name ++ codes " --auto --right-of eDP-1" in
    let t3 = codes " --right-of eDP-1 2>/dev/null || xrandr --output " ++ t4 in
    let t2 = codes " --scale " ++ (scale ++ t3) in
    let t1 = codes " --mode " ++ (mode ++ t2) in
    omega (
      arith,
      length-append output_name t1,
      length-append mode t2,
      length-append scale t3,
      length-append output_name (codes " --auto --right-of eDP-1"),
    )

-- One command is run, of at most 511 bytes, and it is the whole one where the name, twice, the mode and
-- the scale leave room for it.
display_lem :
    (host : Host) (output_name mode scale : Bytes) (mirror : Bool) (t : Trace)
    → fixed_bytes mirror + 2 * length output_name + length mode + length scale ≤ 511
    → (display_apply_config host output_name mode scale mirror t).1.commands
      ≡ t.commands ++ command_of output_name mode scale mirror ∷ []
unfolding display_apply_config command_of
display_lem host output_name mode scale mirror t h =
    ap (λ c. t.commands ++ c ∷ [])
      (take_all 511 (command_of output_name mode scale mirror)
        (omega (arith, h, length-command output_name mode scale mirror)))

-- There is no callback.
pub data Handler : Type 0 where

abbrev modes : List Bytes
modes =
    (codes "3840x2160 @ 60Hz (4K Ultra HD)")
    ∷ (codes "2560x1440 @ 144Hz (2K QHD)")
    ∷ (codes "1920x1080 @ 144Hz (Full HD)")
    ∷ (codes "1920x1080 @ 60Hz (Full HD Standard)")
    ∷ []

unfoldable pub create_display_settings_widget : Widget Handler
create_display_settings_widget =
    let mode_group = box (
      append (label (utf8 "Chế độ hiển thị màn hình rời:")) (
        append (button (utf8 " Mở rộng (Extend) ") none)
          (append (button (utf8 " Phản chiếu (Mirror) ") none) (no_more)))) in
    let res_group =
      box (
        append (label (utf8 "Độ phân giải & Tần số quét:")) (append (drop_down modes) (no_more))) in
    let cast_card = box (
      append (label (utf8 "📡 Chia sẻ Màn hình Không dây (Miracast / Wireless Display):"))
        (append (button (utf8 " Quét tìm Smart TV & Máy chiếu Không dây ") none) (no_more))) in
    box (
      append
        (label
          (utf8 "🖥" ++ (239 ∷ 184 ∷ 143 ∷ utf8 " Cài đặt Màn hình & Đa Màn hình (Multi-Monitor)")))
        (append mode_group (append res_group (append cast_card (no_more)))))
