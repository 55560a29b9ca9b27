-- ===== src/TestSupport/Report.antt =====
-- tests/e2e/utilities/converter.go: the report. Its types are those of the modules kuttl and
-- go-ctrf-json-reporter, as far as the converter uses them.
-- `report.Failure`, of a test case.
use kubernetes_external_prov.Base.{
  Bool-cases, IsErr-ne_ok, List, Option, Result, Result-cases, String, [], ap, ap₂, err, errorf,
  if◌then◌else◌, inl, inr, length, ltb, map, none, ok, ok-injective, some, sym, ℕ, ◌-◌, ◌>>=◌, ◌^^◌,
  ◌∙◌, ◌∷◌, ◌≡◌,
}
use kubernetes_external_prov.Fsutils.Device.{negsuc, pos, ℤ}

pub record Failure : Type 0 where
  pub message : String
  pub text : String

-- What the converter uses of package time.
pub record TimeApi (Time Duration : Type 0) : Type 0 where
  pub parse_duration : String → Result Duration
  pub milliseconds : Duration → ℤ
  pub unix_milli : Time → ℤ
  pub later : Time → Duration → Time

-- `report.Testsuite`, of which one holds others; `seconds` is its field `Time`, and the test cases have a
-- failure or none.
pub record SubSuite (Time : Type 0) : Type 0 where
  pub name : String
  pub seconds : String
  pub timestamp : Time
  pub failures : ℕ
  pub testcases : List (Option Failure)

pub record Suite (Time : Type 0) : Type 0 where
  pub name : String
  pub seconds : String
  pub timestamp : Time
  pub failures : ℕ
  pub sub_suites : List (SubSuite Time)

pub data TestStatus : Type 0 where
  test_passed test_failed : TestStatus

-- `ctrf.TestResult`
pub record TestResult : Type 0 where
  pub name : String
  pub suite : String
  pub status : TestStatus
  pub duration : ℤ
  pub start : ℤ
  pub stop : ℤ
  pub message : String
  pub trace : String

-- The difference of two `int`s that are not negative.
abbrev pub difference : ℕ → ℕ → ℤ
difference a b = if ltb a b then negsuc (b - a - 1) else pos (a - b)

-- `ctrf.Summary`
pub record Summary : Type 0 where
  pub tests : ℕ
  pub passed : ℤ
  pub failed : ℕ
  pub suites : ℕ
  pub start : ℤ
  pub stop : ℤ

pub record Report : Type 0 where
  pub tool : String
  pub app_name : String
  pub summary : Summary
  pub results : List TestResult

-- The loop over the test cases of a sub-suite that failed: the first failure.
unfoldable pub first_failure : List (Option Failure) → Failure
first_failure [] = record { message = ""; text = "" }
first_failure (none ∷ cases) = first_failure cases
first_failure (some f ∷ cases) = f

module _ {Time Duration : Type 0} (time : TimeApi Time Duration) where
  abbrev pub with_failure : SubSuite Time → TestResult → TestResult
  with_failure sub result =
      if ltb 0 sub.failures
      then (record result {
        status = test_failed;
        message = (first_failure sub.testcases).message;
        trace = (first_failure sub.testcases).text;
      })
      else result

  unfoldable pub result_of : String → SubSuite Time → Duration → TestResult
  unfolding first_failure
  result_of suite_name sub took = with_failure sub (record {
    name = sub.name;
    suite = suite_name;
    status = test_passed;
    duration = time.milliseconds took;
    start = time.unix_milli sub.timestamp;
    stop = time.unix_milli (time.later sub.timestamp took);
    message = "";
    trace = "";
  })

  -- The loop over the sub-suites; the first duration that cannot be parsed ends it.
  unfoldable pub results_of : String → List (SubSuite Time) → Result (List TestResult)
  unfolding result_of
  results_of suite_name [] = ok []
  results_of suite_name (sub ∷ subs) = do
    took ← time.parse_duration (sub.seconds ^^ "s")
    rest ← results_of suite_name subs
    ok (result_of suite_name sub took ∷ rest)

  -- The report of the first suite; without one, its index is out of range.
  unfoldable pub report_of : List (Suite Time) → Result Report
  unfolding results_of
  report_of [] = err (errorf "index out of range [0] with length 0" [])
  report_of (suite ∷ suites) = do
    took ← time.parse_duration (suite.seconds ^^ "s")
    results ← results_of suite.name suite.sub_suites
    ok (record {
      tool = "kuttl";
      app_name = "kuttl go test";
      summary = record {
        tests = length suite.sub_suites;
        passed = difference (length suite.sub_suites) suite.failures;
        failed = suite.failures;
        suites = 1;
        start = time.unix_milli suite.timestamp;
        stop = time.unix_milli (time.later suite.timestamp took);
      };
      results = results;
    })

  result_of-name :
      (suite_name : String) (sub : SubSuite Time) (took : Duration)
      → (result_of suite_name sub took).name ≡ sub.name
  unfolding result_of
  result_of-name suite_name sub took = elim (Bool-cases (ltb 0 sub.failures)) [
    | inl broken ↦ rw broken
    | inr sound ↦ rw sound
  ]

  -- A report has, in order, one result for each sub-suite, under its name.
  pub results_of-names :
      (suite_name : String) (subs : List (SubSuite Time)) (results : List TestResult)
      → results_of suite_name subs ≡ ok results
      → map (λ r. r.name) results ≡ map (λ s. s.name) subs
  unfolding results_of
  results_of-names suite_name [] results h = ap (map (λ r. r.name)) (ok-injective (sym h))
  results_of-names suite_name (sub ∷ subs) results h =
      elim (Result-cases (time.parse_duration (sub.seconds ^^ "s"))) [
        | inr (e, bad) ↦ absurd (IsErr-ne_ok _ (rw bad tt) h)
        | inl (took, parsed) ↦ elim (Result-cases (results_of suite_name subs)) [
          | inr (e, bad) ↦ absurd (IsErr-ne_ok _ (rw (parsed, bad) tt) h)
          | inl (rest, made) ↦
              let whole : results_of suite_name (sub ∷ subs)
                  ≡ ok (result_of suite_name sub took ∷ rest) =
                rw (parsed, made) in
              ap (map (λ r. r.name)) (ok-injective (sym h ∙ whole))
              ∙ ap₂ ◌∷◌ (result_of-name suite_name sub took)
                  (results_of-names suite_name subs rest made)
        ]
      ]
