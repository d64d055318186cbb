-- ===== src/App/Messages.antt =====
-- app-framework/app-core/src/app-control.c, app-event.c and app-lifecycle.c: functions that print what they
-- would do. Each is the text that it prints.
use tizen_os.Libc.{Bytes, codes}
use tizen_os.Libc.Text.{utf8}
use tizen_os.Base.{◌++◌}

unfoldable pub app_control_send_launch_request : Bytes → Bytes
app_control_send_launch_request app_id =
    utf8 "Gửi yêu cầu launch qua AppControl cho app: " ++ (app_id ++ codes "\n")

unfoldable pub app_event_register_system_events : Bytes
app_event_register_system_events = utf8 "Đăng ký lắng nghe system events.\n"

unfoldable pub app_lifecycle_pause : Bytes
app_lifecycle_pause = utf8 "Ứng dụng chuyển sang trạng thái pause.\n"

unfoldable pub app_lifecycle_resume : Bytes
app_lifecycle_resume = utf8 "Ứng dụng chuyển sang trạng thái resume.\n"
