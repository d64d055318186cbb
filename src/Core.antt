-- ===== src/Core.antt =====
-- core/libtizen-core/src/log.c and utils.c: what is written of a message, and the texts of the codes. The
-- text that `vsnprintf` formats is a parameter.
use tizen_os.Base.{
  zero, suc, ◌+◌, ◌≤◌, ◌≡◌, sym, ap, ◌++◌, append_assoc, arith, length, length-append, length-take,
  refl, Bool, Option, none, some, ltb, ◌==◌, if◌then◌else◌,
}
use tizen_os.Base.Int.{ℤ, pos, negsuc}
use tizen_os.Libc.{Bytes, codes, snprintf, str_eq}
use tizen_os.Libc.Text.{utf8}

-- `tizen_log_level_t`, and any other number.
pub data TizenLogLevel : Type 0 where
  log_debug log_info log_warning log_error log_fatal other_level : TizenLogLevel

pub data Priority : Type 0 where
  prio_debug prio_info prio_warning prio_err prio_crit : Priority

-- What the journal gets, with its priority, and the standard output.
pub record Written : Type 0 where
  pub priority : Priority
  pub journal : Bytes
  pub stdout : Bytes

-- The `switch`.
unfoldable pub named_level : TizenLogLevel → Priority × Bytes
named_level log_debug = (prio_debug, codes "DEBUG")
named_level log_info = (prio_info, codes "INFO")
named_level log_warning = (prio_warning, codes "WARN")
named_level log_error = (prio_err, codes "ERROR")
named_level log_fatal = (prio_crit, codes "FATAL")
named_level other_level = (prio_info, codes "INFO")

unfoldable pub tizen_log_print : TizenLogLevel → Bytes → Bytes → Written
tizen_log_print level tag text =
    let message = snprintf 1024 text in
    let (priority, level_str) = named_level level in
    record {
      priority = priority;
      journal = codes "[" ++ (tag ++ (codes "] " ++ message));
      stdout =
          codes "["
          ++ (level_str ++ (codes "] [" ++ (tag ++ (codes "] " ++ (message ++ codes "\n")))));
    }

-- The codes of include/tizen/error.h.
abbrev pub tizen_error_none : ℤ
tizen_error_none = pos 0

abbrev pub tizen_error_invalid_parameter : ℤ
tizen_error_invalid_parameter = negsuc 0

abbrev pub tizen_error_out_of_memory : ℤ
tizen_error_out_of_memory = negsuc 1

abbrev pub tizen_error_io_error : ℤ
tizen_error_io_error = negsuc 2

abbrev pub tizen_error_permission_denied : ℤ
tizen_error_permission_denied = negsuc 3

abbrev pub tizen_error_not_supported : ℤ
tizen_error_not_supported = negsuc 4

unfoldable pub tizen_error_to_string : ℤ → Bytes
tizen_error_to_string (pos zero) = utf8 "Không có lỗi (Success)"
tizen_error_to_string (negsuc zero) = utf8 "Tham số không hợp lệ (Invalid Parameter)"
tizen_error_to_string (negsuc (suc zero)) = utf8 "Hết bộ nhớ (Out of Memory)"
tizen_error_to_string (negsuc (suc (suc zero))) = utf8 "Lỗi vào/ra (IO Error)"
tizen_error_to_string (negsuc (suc (suc (suc zero)))) =
    utf8 "Từ chối quyền truy cập (Permission Denied)"
tizen_error_to_string (negsuc (suc (suc (suc (suc zero))))) = utf8 "Không hỗ trợ (Not Supported)"
tizen_error_to_string _ = utf8 "Lỗi không xác định (Unknown Error)"

-- The line on the standard output is the journal's entry behind the name of the level, and the message
-- in both has at most 1,023 bytes, whatever is formatted.
log_lem :
    (level : TizenLogLevel) (tag text : Bytes)
    → let w = tizen_log_print level tag text in
      (w.stdout ≡ codes "[" ++ ((named_level level).1 ++ (codes "] " ++ (w.journal ++ codes "\n"))))
      × (length w.journal ≤ 3 + length tag + 1023)
unfolding tizen_log_print
log_lem level tag text =
    let message = snprintf 1024 text in
    (
      ap (λ t. codes "[" ++ ((named_level level).1 ++ (codes "] [" ++ t)))
          (sym (append_assoc tag (codes "] " ++ message) (codes "\n"))),
      omega (arith, length-append tag (codes "] " ++ message), length-take 1023 text),
    )

-- core/libtizen-core/src/core.c: what both functions log, and the code of the first.
unfoldable pub tizen_core_init : Written × ℤ
tizen_core_init = (
  tizen_log_print log_info (codes "TIZEN_CORE") (utf8 "Đang khởi tạo Tizen Core Library..."),
  tizen_error_none,
)

unfoldable pub tizen_core_deinit : Written
tizen_core_deinit =
    tizen_log_print log_info (codes "TIZEN_CORE") (utf8 "Đang dọn dẹp Tizen Core Library...")

-- The code of the first is the one for success.
core_init_lem : tizen_error_to_string tizen_core_init.1 ≡ utf8 "Không có lỗi (Success)"
unfolding tizen_error_to_string tizen_core_init
core_init_lem = refl

abbrev text_is : ℤ → Bytes → Bool
text_is code text = str_eq text (tizen_error_to_string code)

-- The code that a text stands for.
unfoldable pub code_of : Bytes → Option ℤ
code_of text =
    if text_is tizen_error_none text
    then some tizen_error_none
    else if text_is tizen_error_invalid_parameter text
    then some tizen_error_invalid_parameter
    else if text_is tizen_error_out_of_memory text
    then some tizen_error_out_of_memory
    else if text_is tizen_error_io_error text
    then some tizen_error_io_error
    else if text_is tizen_error_permission_denied text
    then some tizen_error_permission_denied
    else if text_is tizen_error_not_supported text
    then some tizen_error_not_supported
    else none

unfoldable pub is_code : ℤ → Bool
is_code (pos n) = n == 0
is_code (negsuc n) = ltb n 5

-- Each of the six codes is told from its text, and no other number has the text of one of them.
pub error-roundtrip :
    (error : ℤ)
    → code_of (tizen_error_to_string error) ≡ (if is_code error then some error else none)
unfolding code_of tizen_error_to_string is_code str_eq utf8
error-roundtrip (pos zero) = refl
error-roundtrip (pos (suc n)) = ground arith
error-roundtrip (negsuc zero) = refl
error-roundtrip (negsuc (suc zero)) = refl
error-roundtrip (negsuc (suc (suc zero))) = refl
error-roundtrip (negsuc (suc (suc (suc zero)))) = refl
error-roundtrip (negsuc (suc (suc (suc (suc zero))))) = refl
error-roundtrip (negsuc (suc (suc (suc (suc (suc n)))))) = ground arith
