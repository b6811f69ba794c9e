-- ===== src/Invoker/Reports.antt =====
-- src/invoker/report.c: the invoker's messages, on its standard output or in the system log. The other
-- models leave them out, since nothing that they do depends on them; `die` is an exit there.
pub mod Opened
use touch_applauncherd.Common.{
  ℕ, Bool, true, false, not, if◌then◌else◌, List, [], ◌∷◌, ◌++◌, Text, codes, take,
}
use touch_applauncherd.Common.Exits.{Run, ◌>>=◌, ◌>>◌, exit, get, modify, when}

pub data ReportOutput : Type 0 where
  report_console report_syslog report_none : ReportOutput

pub data ReportType : Type 0 where
  report_debug report_info report_warning report_error report_fatal : ReportType

-- LOG_DEBUG, LOG_INFO, LOG_WARNING and LOG_ERR
pub data LogType : Type 0 where
  log_debug log_info log_warning log_err : LogType

-- The calls of the C library.
pub data Written : Type 0 where
  openlog : Text → Written
  closelog : Written
  printf : Text → Written
  syslog : LogType → Text → Written

-- The static variable, and what was written, newest first.
pub record Reports : Type 0 where
  pub output : ReportOutput
  pub written : List Written

unfoldable pub new_reports : Reports
new_reports = record { output = report_console; written = [] }

abbrev pub same_output : ReportOutput → ReportOutput → Bool
same_output report_console report_console = true
same_output report_syslog report_syslog = true
same_output report_none report_none = true
same_output a b = false

abbrev pub prog_name_invoker : Text
prog_name_invoker = codes "invoker"

abbrev put_written : Written → Run Reports (Unit {0})
put_written w = modify λ r. record r { written = w ∷ r.written }

unfoldable pub report_set_output : ReportOutput → Run Reports (Unit {0})
report_set_output new_output = do
  r ← get
  when (not (same_output r.output new_output)) (do
    when (same_output r.output report_syslog) (put_written closelog)
    when (same_output new_output report_syslog) (put_written (openlog prog_name_invoker))
    modify (λ r. record r { output = new_output }))

-- `str_type` and `log_type`
unfoldable pub str_type : ReportType → Text
str_type report_debug = []
str_type report_info = []
str_type report_warning = codes "warning: "
str_type report_error = codes "error: "
str_type report_fatal = codes "died: "

unfoldable pub log_type : ReportType → LogType
log_type report_debug = log_debug
log_type report_info = log_info
log_type report_warning = log_warning
log_type report_error = log_err
log_type report_fatal = log_err

-- sizeof(str) - 1
abbrev pub str_max : ℕ
str_max = 399

-- `message` is what the format and its arguments print as.
unfoldable pub vreport : ReportType → Text → Run Reports (Unit {0})
vreport type message = do
  r ← get
  let text = str_type type ++ take str_max message
  if same_output r.output report_console
      then put_written (printf (prog_name_invoker ++ codes ": " ++ text))
      else when (same_output r.output report_syslog) (put_written (syslog (log_type type) text))

unfoldable pub report : ReportType → Text → Run Reports (Unit {0})
report type message = vreport type message

unfoldable pub die : ℕ → Text → Run Reports (Unit {0})
die status message = do vreport report_fatal message; exit status
