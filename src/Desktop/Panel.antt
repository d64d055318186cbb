-- ===== src/Desktop/Panel.antt =====
-- shell/panel/src/panel.c: the bar, its buttons and its clock. No button is connected to a callback; the
-- menu button opens its popover.
use tizen_os.Libc.Text.{utf8}
use tizen_os.Libc.{Bytes}
use tizen_os.Base.{
  ℕ, zero, suc, ◌+◌, ◌-◌, ◌*◌, ◌/◌, ◌%◌, ◌≤◌, ◌<◌, ◌≡◌, refl, Bool, true, false, none, some, List,
  [], ◌∷◌, ◌++◌, arith, ltb, if◌then◌else◌, length, get_elem?,
}
use tizen_os.Gtk.{Widget, label, button, box, menu_button, Children, no_more, append}

-- There is no callback.
pub data Handler : Type 0 where

-- `categories`
abbrev pub categories : List Bytes
categories =
    (utf8 "🌐  Trình duyệt & Internet")
    ∷ (utf8 "🎨  Đồ họa & Đa phương tiện")
    ∷ (utf8 "💼  Văn phòng & Công việc")
    ∷ (utf8 "🎮  Trò chơi & Giải trí")
    ∷ (utf8 "⚙" ++ (239 ∷ 184 ∷ 143 ∷ utf8 "  Hệ thống & Cài đặt (tizen-settings)"))
    ∷ (utf8 "📁  Trình quản lý File (tizenos-files)")
    ∷ (utf8 "💻  Terminal Command Prompt")
    ∷ []

abbrev items : List Bytes → Children Handler
items [] = no_more
items (text ∷ texts) = append (button text none) (items texts)

unfoldable pub create_app_menu_button : Widget Handler
create_app_menu_button = menu_button (utf8 " 🌐 TizenOS Menu ") (box (items categories))

-- The buttons of the workspaces from `i` on: the text is ` %d `, of a number with one digit.
unfoldable pub workspaces : ℕ → ℕ → Children Handler
workspaces zero i = no_more
workspaces (suc n) i = append (button (b' ' ∷ (b'0' + i) ∷ b' ' ∷ []) none) (workspaces n (i + 1))

unfoldable pub create_workspace_switcher : Widget Handler
create_workspace_switcher = box (workspaces 4 1)

-- The broken-down time, as `strftime` reads it.
pub record Tm : Type 0 where
  pub hour : ℕ
  pub minute : ℕ
  pub day : ℕ
  pub month : ℕ
  pub year : ℕ

abbrev two_digits : ℕ → Bytes
two_digits n = (b'0' + n / 10) ∷ (b'0' + n % 10) ∷ []

-- The text of the format ` %H:%M  •  %d/%m/%Y `, for a year of four digits.
unfoldable pub clock_text : Tm → Bytes
clock_text tm =
    b' ' ∷ two_digits tm.hour
    ++ (b':' ∷ two_digits tm.minute
        ++ (b' ' ∷ b' ' ∷ 226 ∷ 128 ∷ 162 ∷ b' ' ∷ b' ' ∷ two_digits tm.day
            ++ (b'/' ∷ two_digits tm.month
                ++ (b'/' ∷ two_digits (tm.year / 100)
                    ++ (two_digits (tm.year % 100) ++ b' ' ∷ [])))))

-- The label of the clock: there is none yet, it shows a text, or a text of which the code knows nothing.
pub data Clock : Type 0 where
  no_label indeterminate : Clock
  shows : Bytes → Clock

-- `strftime` into a buffer of `size` bytes: the text, where it fits with its NUL.
abbrev strftime : ℕ → Bytes → Clock
strftime size text = if ltb (length text) size then shows text else indeterminate

-- `update_clock`: whether the timer goes on, and the label.
unfoldable pub update_clock : Tm → Clock → Bool × Clock
update_clock tm no_label = (false, no_label)
update_clock tm _ = (true, strftime 64 (clock_text tm))

-- `create_quick_settings_tray`: the widgets, with what the clock shows.
unfoldable pub create_quick_settings_tray : Bytes → Widget Handler
create_quick_settings_tray clock = box (
    append (button (utf8 " 📶 Wi-Fi ") none) (
      append (button (utf8 " 🔊 80% ") none) (
        append (button (utf8 " 🔋 98% ") none) (
          append (label clock)
            (append (button (utf8 " ⏏" ++ (239 ∷ 184 ∷ 143 ∷ utf8 " Nguồn ")) none) (no_more))))))

-- The timer calls at each tick, as long as it goes on.
unfoldable pub ticks : List Tm → Bool × Clock → Bool × Clock
ticks [] (goes_on, clock) = (goes_on, clock)
ticks (tm ∷ tms) (true, clock) = ticks tms (update_clock tm clock)
ticks (tm ∷ tms) (false, clock) = (false, clock)

-- The label that the tray makes is empty, and is set at once.
unfoldable pub run_clock : Tm → List Tm → Bool × Clock
run_clock start tms = ticks tms (update_clock start (shows []))

-- `activate`: the bar, with its three zones and the two spacers between them.
unfoldable pub activate : Bytes → Widget Handler
activate clock = box (
    append create_app_menu_button (
      append (box no_more) (
        append create_workspace_switcher
          (append (box no_more) (append (create_quick_settings_tray clock) (no_more))))))

abbrev digit_at : Bytes → ℕ → ℕ
digit_at text i = elim (get_elem? text i) [ none ↦ 0 | some c ↦ c - b'0' ]

abbrev number_at : Bytes → ℕ → ℕ
number_at text i = 10 * digit_at text i + digit_at text (i + 1)

-- The time that a reader of the clock takes from its text.
unfoldable pub read_clock : Bytes → Tm
read_clock text = record {
  hour = number_at text 1;
  minute = number_at text 4;
  day = number_at text 13;
  month = number_at text 16;
  year = 100 * number_at text 19 + number_at text 21;
}

-- What `localtime` gives until the year 9999.
abbrev pub IsTime : Tm → Type 0
IsTime tm = (tm.hour < 24) × (tm.minute < 60) × (tm.day ≤ 31) × (tm.month ≤ 12) × (tm.year < 10000)

unfoldable pub last_time : Tm → List Tm → Tm
last_time tm [] = tm
last_time tm (next ∷ tms) = last_time next tms

digits_read : (n : ℕ) → n < 100 → 10 * (b'0' + n / 10 - b'0') + (b'0' + n % 10 - b'0') ≡ n
digits_read n h = omega arith

same_tm :
    (tm : Tm) (h m d mo y : ℕ)
    → h ≡ tm.hour
    → m ≡ tm.minute
    → d ≡ tm.day
    → mo ≡ tm.month
    → y ≡ tm.year
    → record { hour = h; minute = m; day = d; month = mo; year = y } ≡ tm
same_tm tm h m d mo y a b c e f = ground (arith, a, b, c, e, f)

read-clock_text : (tm : Tm) → IsTime tm → read_clock (clock_text tm) ≡ tm
unfolding read_clock clock_text
read-clock_text tm h =
    let year_read : 100 * (tm.year / 100) + tm.year % 100 ≡ tm.year = omega arith in
    same_tm tm _ _ _ _ _ (digits_read tm.hour (omega (arith, h)))
      (digits_read tm.minute (omega (arith, h))) (digits_read tm.day (omega (arith, h)))
      (digits_read tm.month (omega (arith, h)))
      (omega (
        arith,
        digits_read (tm.year / 100) (omega (arith, h)),
        digits_read (tm.year % 100) (omega (arith, h)),
        year_read,
      ))

ticks_lem :
    (tm : Tm) (tms : List Tm)
    → ticks tms (true, shows (clock_text tm)) ≡ (true, shows (clock_text (last_time tm tms)))
unfolding ticks update_clock last_time clock_text
ticks_lem tm [] = refl
ticks_lem tm (next ∷ tms) = ticks_lem next tms

-- As long as the panel runs its clock goes on, and shows the time of the last tick: the whole text of 24
-- bytes is in the label, and who reads its digits gets the time back.
pub clock_lem :
    (start : Tm) (tms : List Tm)
    → IsTime (last_time start tms)
    → (text : Bytes) × (run_clock start tms ≡ (true, shows text))
      × (length text ≡ 24)
      × (read_clock text ≡ last_time start tms)
unfolding run_clock update_clock clock_text
clock_lem start tms h = (
  clock_text (last_time start tms),
  ticks_lem start tms,
  refl,
  read-clock_text (last_time start tms) h,
)
