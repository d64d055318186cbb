-- ===== src/Installer/Welcome.antt =====
-- installer/tizenos-installer/src/boot-welcome.c: the window that greets the user, its buttons and what
-- they start.
pub mod Clicks
use tizen_os.Libc.Text.{utf8}
use tizen_os.Libc.{Bytes, codes}
use tizen_os.Base.{
  ℕ, zero, suc, ◌≡◌, refl, sym, ap, ◌∙◌, Bool, true, false, not, ◌||◌, Option, none, some, List, [],
  ◌∷◌, ◌++◌, append_assoc, append-nil, arith, ◌==◌, if◌then◌else◌, get_elem?, All, ◌+◌, ◌-◌, ◌*◌,
  ◌/◌, ◌%◌, ◌^◌, ◌≤◌, ◌<◌, min, ◌≢◌, ◌↔◌, ◌⊎◌, inl, inr, ◌&&◌, map, ltb, leb, ==_iff, Bool-cases,
  Option-cases, length, take, drop, set, join, length-append, take-append-drop, length-take,
  length-drop, take_all,
}
use mathlib.Core.Path.{subst}
use tizen_os.Gtk.{Widget, label, button, box, no_more, append, buttons}

-- The callbacks of the buttons.
pub data Handler : Type 0 where
  on_btn_installer_clicked on_btn_browser_clicked on_btn_files_clicked on_btn_terminal_clicked
        on_btn_close_clicked :
      Handler

-- Whether the window is open, and the commands that were run.
pub record Greeter : Type 0 where
  pub is_open : Bool
  pub commands : List Bytes

abbrev system : Bytes → Greeter → Greeter
system cmd g = record g { commands = g.commands ++ cmd ∷ [] }

unfoldable pub call : Handler → Greeter → Greeter
call on_btn_installer_clicked g = system (codes "/usr/local/bin/tizenos-installer-gui &") g
call on_btn_browser_clicked g = system (codes "firefox-esr &") g
call on_btn_files_clicked g = system (codes "thunar &") g
call on_btn_terminal_clicked g = system (codes "xfce4-terminal &") g
call on_btn_close_clicked g = record g { is_open = false }

abbrev pub installer_text : Bytes
installer_text = utf8 "🚀 Cài Đặt TizenOS Lên Ổ Đĩa"

abbrev pub browser_text : Bytes
browser_text = utf8 "🌐 Trình Duyệt Web"

abbrev pub files_text : Bytes
files_text = utf8 "📂 Quản Lý Tệp"

abbrev pub terminal_text : Bytes
terminal_text = utf8 "💻 Terminal"

abbrev pub close_text : Bytes
close_text = utf8 "✕ Bắt Đầu Trải Nghiệm TizenOS"

abbrev features_card : Widget Handler
features_card = box (
    append (label (utf8 "🚀 Điểm Nổi Bật Hệ Thống:")) (
      append
        (label (
          utf8
            "• Nền tảng Debian 12/14 Kernel 6.1 LTS tích hợp sẵn Smack Security MAC.\n• Bộ ứng dụng tinh gọn: Mousepad Text Editor, Evince PDF, VLC Player, GIMP.\n• Hỗ trợ đầy đủ Intel Audio Firmware, Wi-Fi Realtek/Atheros & Codecs."))
        no_more))

abbrev keys_card : Widget Handler
keys_card = box (
    append (label (utf8 "⌨" ++ (239 ∷ 184 ∷ 143 ∷ utf8 " Phím Tắt Nhanh Nổi Bật:"))) (
      append
        (label (
          utf8
            "• Alt + Tab : Chuyển đổi ứng dụng đang mở (Có ảnh thu nhỏ Preview)\n• Ctrl + Alt + Left/Right : Chuyển giữa 4 màn hình làm việc ảo (Workspaces)\n• Super (Windows) + 1..4 : Nhảy trực tiếp tới Workspace 1, 2, 3, 4\n• Ctrl + Alt + T : Mở nhanh XFCE Terminal"))
        no_more))

-- `on_app_activate`
unfoldable pub on_app_activate : Widget Handler
on_app_activate =
    let actions = box (
      append (button installer_text (some on_btn_installer_clicked)) (
        append (button browser_text (some on_btn_browser_clicked)) (
          append (button files_text (some on_btn_files_clicked))
            (append (button terminal_text (some on_btn_terminal_clicked)) no_more)))) in
    box (
      append (label (utf8 "🌀 Chào Mừng Đến Với TizenOS 1.0 (Debian Edition)")) (
        append
          (label (
            utf8
              "Hệ điều hành Linux hiện đại, nhẹ, bảo mật cao và tích hợp đầy đủ ứng dụng văn phòng."))
          (append features_card (
            append keys_card
              (append actions (append (button close_text (some on_btn_close_clicked)) no_more))))))

-- A click of a button that is connected, while the window is there.
unfoldable pub press : Option (Bytes × Option Handler) → Greeter → Greeter
press (some (text, some h)) g = if g.is_open then call h g else g
press _ g = g

-- The clicks of the buttons at those places.
unfoldable pub clicks : List ℕ → Greeter → Greeter
clicks [] g = g
clicks (i ∷ is) g = clicks is (press (get_elem? (buttons on_app_activate) i) g)

abbrev pub opened : Greeter
opened = record { is_open = true; commands = [] }
