-- ===== src/Invoker/Reports/Opened.antt =====
-- The system log of src/invoker/report.c is used only while it is open.
use touch_applauncherd.Common.{ℕ, ◌≡◌, Bool, true, false, not, ◌&&◌, List, [], ◌∷◌, Text, arith}
use touch_applauncherd.Common.Exits.{Run, ◌>>◌, pure, exit, reached, reached-bind}
use touch_applauncherd.Invoker.Reports.{
  ReportOutput, report_console, report_syslog, report_none, ReportType, report_fatal, Written,
  openlog, closelog, printf, syslog, Reports, same_output, report_set_output, vreport, report, die,
}

pub data Operation : Type 0 where
  sets_output : ReportOutput → Operation
  reports : ReportType → Text → Operation
  dies : ℕ → Text → Operation

unfoldable pub apply : Operation → Run Reports (Unit {0})
apply (sets_output new_output) = report_set_output new_output
apply (reports type message) = report type message
apply (dies status message) = die status message

unfoldable pub apply_all : List Operation → Run Reports (Unit {0})
apply_all [] = pure tt
apply_all (op ∷ ops) = do apply op; apply_all ops

-- Whether the log is open after the calls, newest first.
abbrev pub is_open : List Written → Bool
is_open [] = false
is_open (openlog name ∷ ws) = true
is_open (closelog ∷ ws) = false
is_open (printf text ∷ ws) = is_open ws
is_open (syslog type text ∷ ws) = is_open ws

-- The log is opened when it is closed, and closed and written to when it is open, and nothing is printed
-- while it is.
abbrev pub is_in_order : List Written → Bool
is_in_order [] = true
is_in_order (openlog name ∷ ws) = not (is_open ws) && is_in_order ws
is_in_order (closelog ∷ ws) = is_open ws && is_in_order ws
is_in_order (printf text ∷ ws) = not (is_open ws) && is_in_order ws
is_in_order (syslog type text ∷ ws) = is_open ws && is_in_order ws

pub record IsInOrder (r : Reports) : Type 0 where
  pub open_for_syslog : is_open r.written ≡ same_output r.output report_syslog
  pub in_order : is_in_order r.written ≡ true

abbrev reports_of : ReportOutput → List Written → Reports
reports_of output ws = record { output = output; written = ws }

set-IsInOrder :
    (new_output output : ReportOutput) (ws : List Written)
    → is_open ws ≡ same_output output report_syslog
    → is_in_order ws ≡ true
    → IsInOrder (reached (report_set_output new_output (reports_of output ws)))
unfolding report_set_output
set-IsInOrder report_console report_console ws o i = ground arith
set-IsInOrder report_console report_syslog ws o i = ground arith
set-IsInOrder report_console report_none ws o i = ground arith
set-IsInOrder report_syslog output ws o i = ground arith
set-IsInOrder report_none output ws o i = ground arith

vreport-IsInOrder :
    (type : ReportType) (text : Text) (output : ReportOutput) (ws : List Written)
    → is_open ws ≡ same_output output report_syslog
    → is_in_order ws ≡ true
    → IsInOrder (reached (vreport type text (reports_of output ws)))
unfolding vreport
vreport-IsInOrder type text report_console ws o i = ground arith
vreport-IsInOrder type text report_syslog ws o i = ground arith
vreport-IsInOrder type text report_none ws o i = ground arith

apply-IsInOrder : (op : Operation) (r : Reports) → IsInOrder r → IsInOrder (reached (apply op r))
unfolding apply report die
apply-IsInOrder (sets_output new_output) r h =
    set-IsInOrder new_output r.output r.written h.open_for_syslog h.in_order
apply-IsInOrder (reports type message) r h =
    vreport-IsInOrder type message r.output r.written h.open_for_syslog h.in_order
apply-IsInOrder (dies status message) r h =
    reached-bind IsInOrder (vreport report_fatal message) (λ _. exit status) r
      (vreport-IsInOrder report_fatal message r.output r.written h.open_for_syslog h.in_order)
      (λ _ t at. at)

-- Wherever the invoker's reports are directed to and whatever is reported, in whatever order: if the log was
-- used in order, it still is, also where a report ends the process, and it is open exactly while the reports
-- go to it.
pub apply_all-IsInOrder :
    (ops : List Operation) (r : Reports) → IsInOrder r → IsInOrder (reached (apply_all ops r))
unfolding apply_all
apply_all-IsInOrder [] r h = h
apply_all-IsInOrder (op ∷ ops) r h =
    reached-bind IsInOrder (apply op) (λ _. apply_all ops) r (apply-IsInOrder op r h)
      (λ _ t at. apply_all-IsInOrder ops t at)
