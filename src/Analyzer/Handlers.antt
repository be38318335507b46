-- ===== src/Analyzer/Handlers.antt =====
-- services/ai-analyzer/cmd/main.go: analyzeHandler, analyzeLeaderboardHandler and reportHandler, with
-- services/ai-analyzer/internal/agents/meta.go and services/ai-analyzer/internal/report/generator.go up to
-- the scores. A request comes as net/http and encoding/json deliver it; an answer is its status and body.
use quantime.Prelude.{
  take, ℕ, Bool, true, false, Option, none, some, List, [], ◌∷◌, ltb, if◌then◌else◌, length, ◌^◌,
}
use quantime.Analyzer.Llm.{Outcome, parsed, api_error, no_json, bad_json, generate_json}
use quantime.Analyzer.Agents.{
  GenerateRequest, meta_prompt, report_prompt, runs_json, code_and_metrics, LeaderboardRun,
  Provider, Finding, AnalysisReport, Tools, analyze,
}
use quantime.Analyzer.Providers.{
  Client, Override, no_override, override_provider, override_report_provider,
}

pub data Reason : Type 0 where
  multipart_parse source_file_required read_file invalid_json missing_source_code : Reason
  too_short runs_empty : Reason

pub data Response {ℓ} (A : Type ℓ) : Type ℓ where
  ok : A → Response A
  bad_request : Reason → Response A
  server_error : Response A

pub record AnalyzeRequest : Type 0 where
  pub source_code : List ℕ
  pub logs : Option ℕ
  pub override : Override

-- The field "source" of a form.
pub data FormFile : Type 0 where
  no_file unreadable : FormFile
  readable : List ℕ → FormFile

-- A multipart body whose form parses or does not, or any other body, decoded or not.
pub data Body : Type 0 where
  multipart : Bool → FormFile → Body
  json_body : Option AnalyzeRequest → Body

-- The request and the source code, or the reason for a status 400.
pub data Read : Type 0 where
  refused : Reason → Read
  read : AnalyzeRequest → Read

abbrev pub no_request : AnalyzeRequest
no_request = record { source_code = []; logs = none; override = no_override }

abbrev pub megabyte : ℕ
megabyte = 2 ^ 20

abbrev pub read_file_field : FormFile → Read
read_file_field no_file = refused source_file_required
read_file_field unreadable = refused read_file
read_file_field (readable data') = read (record no_request { source_code = take data' megabyte })

abbrev pub given_code : AnalyzeRequest → List ℕ → Read
given_code req [] = refused missing_source_code
given_code req (c ∷ cs) = read req

abbrev pub read_body : Body → Read
read_body (multipart false file) = refused multipart_parse
read_body (multipart true file) = read_file_field file
read_body (json_body none) = refused invalid_json
read_body (json_body (some req)) = given_code req req.source_code

abbrev pub min_source : ℕ
min_source = 10

abbrev pub max_source : ℕ
max_source = 100000

-- `if len(s) > 100_000 { s = s[:100_000] }`
abbrev pub capped : List ℕ → List ℕ
capped s = if ltb max_source (length s) then take s max_source else s

pub record MetaAnalysisReport : Type 0 where
  pub global_summary : ℕ
  pub winning_patterns : List ℕ
  pub losing_patterns : List ℕ
  pub recommendation : ℕ

-- The report before its score breakdown.
pub record PerformanceReport : Type 0 where
  pub summary : ℕ
  pub bottlenecks : List Finding
  pub optimizations : List ℕ

abbrev pub meta_request : List LeaderboardRun → GenerateRequest
meta_request runs = record {
  prompt = meta_prompt;
  content = runs_json runs;
  has_schema = false;
  temperature = 20;
  max_output_tokens = 4096;
}

abbrev pub report_request : List ℕ → ℕ → GenerateRequest
report_request source_code metrics = record {
  prompt = report_prompt;
  content = code_and_metrics source_code metrics;
  has_schema = false;
  temperature = 20;
  max_output_tokens = 4096;
}

pub record LeaderboardRequest : Type 0 where
  pub runs : List LeaderboardRun
  pub override : Override

pub record ReportRequest : Type 0 where
  pub source_code : List ℕ
  pub metrics : ℕ
  pub override : Override

abbrev pub answer {ℓ} : {A : Type ℓ} → Outcome A → Response A
answer (parsed a) = ok a
answer (api_error e) = server_error
answer no_json = server_error
answer (bad_json s) = server_error

-- The HTTP clients answer for the provider that was chosen.
module _ (generate : Client → Provider) where
  unfoldable pub analyze_source : Tools → Client → AnalyzeRequest → Response AnalysisReport
  analyze_source tools default req =
      let p = override_provider req.override default in
      let source_code = capped req.source_code in
      let report = analyze tools (generate p) source_code req.logs in
      if ltb (length req.source_code) min_source then bad_request too_short else ok report

  abbrev pub analyze_read : Tools → Client → Read → Response AnalysisReport
  analyze_read tools default (refused r) = bad_request r
  analyze_read tools default (read req) = analyze_source tools default req

  abbrev pub analyze_handler : Tools → Client → Body → Response AnalysisReport
  analyze_handler tools default body = analyze_read tools default (read_body body)

  abbrev pub analyze_leaderboard :
      (List ℕ → Option MetaAnalysisReport)
      → Client
      → List LeaderboardRun
      → Outcome MetaAnalysisReport
  analyze_leaderboard decode p runs = generate_json decode (generate p (meta_request runs))

  abbrev pub with_runs :
      (List ℕ → Option MetaAnalysisReport)
      → Client
      → Override
      → List LeaderboardRun
      → Response MetaAnalysisReport
  with_runs decode default override [] = bad_request runs_empty
  with_runs decode default override (r ∷ rs) =
      answer (analyze_leaderboard decode (override_provider override default) (r ∷ rs))

  abbrev pub analyze_leaderboard_handler :
      (List ℕ → Option MetaAnalysisReport)
      → Client
      → Option LeaderboardRequest
      → Response MetaAnalysisReport
  analyze_leaderboard_handler decode default none = bad_request invalid_json
  analyze_leaderboard_handler decode default (some req) =
      with_runs decode default req.override req.runs

  abbrev pub generate_performance_report :
      (List ℕ → Option PerformanceReport) → Client → List ℕ → ℕ → Outcome PerformanceReport
  generate_performance_report decode p source_code metrics =
      generate_json decode (generate p (report_request source_code metrics))

  abbrev pub report_handler :
      (List ℕ → Option PerformanceReport)
      → Client
      → Option ReportRequest
      → Response PerformanceReport
  report_handler decode default none = bad_request invalid_json
  report_handler decode default (some req) =
      let p = override_report_provider req.override default in
      let report =
        answer (generate_performance_report decode p (capped req.source_code) req.metrics) in
      if ltb (length req.source_code) min_source then bad_request too_short else report
