-- ===== src/TestSupport/Converter.antt =====
-- tests/e2e/utilities/converter.go: from the file of kuttl to that of CTRF.
use kubernetes_external_prov.Base.{List, Result, String, [], wrap}
use kubernetes_external_prov.Exec.{Exec, gets, lift, wrapped, ◌>>=◌}
use kubernetes_external_prov.TestSupport.Report.{Report, Suite, TimeApi, report_of}

module _ {Time Duration W : Type 0} (time : TimeApi Time Duration)
    (read_file : String → W → Result String) (unmarshal : String → Result (List (Suite Time)))
    (write_file : Report → String → Exec W (Unit {0})) where
  -- `ConvertKuttlReportToCTRF`
  unfoldable pub convert : String → String → Exec W (Unit {0})
  unfolding report_of
  convert report_path output_path = do
    report_data ← wrapped "failed to read KUTTL report: %w" [] (gets (read_file report_path))
    suites ← lift (wrap "failed to parse KUTTL report: %w" [] (unmarshal report_data))
    report ← lift (report_of time suites)
    write_file report output_path
