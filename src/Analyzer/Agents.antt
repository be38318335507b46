-- ===== src/Analyzer/Agents.antt =====
-- services/ai-analyzer/internal/agents: types.go, the three agents and synthesizer.go. Texts are opaque, but for the
-- source code. A provider answers a request, call by call; the decoders and `sort.Slice`, which keeps no
-- order among equals, are parameters. The three agents do not share state, so their order is free.
use quantime.Prelude.{
  ℕ, ◌+◌, Bool, true, Option, none, some, List, [], ◌∷◌, ◌++◌, map, ltb, if◌then◌else◌,
}
use quantime.Analyzer.Llm.{Attempt, Outcome, parsed, api_error, no_json, bad_json, generate_json}

pub data Severity : Type 0 where
  critical high medium low info other_severity : Severity

pub data Category : Type 0 where
  security performance correctness : Category
  other_category : ℕ → Category

pub record Finding : Type 0 where
  pub severity : Severity
  pub category : Category
  pub location : ℕ
  pub description : ℕ
  pub suggestion : ℕ

-- A missing key reads as 0.
abbrev pub severity_weight : Severity → ℕ
severity_weight critical = 25
severity_weight high = 15
severity_weight medium = 8
severity_weight low = 3
severity_weight info = 1
severity_weight other_severity = 0

pub data Prompt : Type 0 where
  agent_prompt : Category → Prompt
  synthesizer_prompt meta_prompt report_prompt : Prompt

-- A row of the leaderboard; its texts and numbers are not looked at.
pub record LeaderboardRun : Type 0 where
  pub team : ℕ
  pub score : ℕ
  pub p99 : ℕ
  pub tps : ℕ
  pub error_rate : ℕ
  pub source_code : ℕ

-- What a request asks with.
pub data Content : Type 0 where
  code : List ℕ → Option ℕ → Content
  findings_json : List Finding → Content
  runs_json : List LeaderboardRun → Content
  code_and_metrics : List ℕ → ℕ → Content

-- The temperature is in hundredths.
pub record GenerateRequest : Type 0 where
  pub prompt : Prompt
  pub content : Content
  pub has_schema : Bool
  pub temperature : ℕ
  pub max_output_tokens : ℕ

abbrev pub Provider : Type 0
Provider = GenerateRequest → ℕ → Attempt

abbrev pub agent_request : Category → List ℕ → Option ℕ → GenerateRequest
agent_request category source_code logs = record {
  prompt = agent_prompt category;
  content = code source_code logs;
  has_schema = true;
  temperature = 10;
  max_output_tokens = 4096;
}

abbrev pub synthesis_request : List Finding → GenerateRequest
synthesis_request findings = record {
  prompt = synthesizer_prompt;
  content = findings_json findings;
  has_schema = true;
  temperature = 20;
  max_output_tokens = 1024;
}

pub record Synthesis : Type 0 where
  pub summary : ℕ
  pub strengths : List ℕ
  pub recommendations : List ℕ

pub record AnalysisReport : Type 0 where
  pub findings : List Finding
  pub risk_score : ℕ
  pub summary : Option ℕ
  pub strengths : List ℕ
  pub recommendations : List ℕ

abbrev pub tag : Category → Finding → Finding
tag category f = record f { category = category }

abbrev pub total_weight : List Finding → ℕ
total_weight [] = 0
total_weight (f ∷ fs) = severity_weight f.severity + total_weight fs

unfoldable pub risk_score : List Finding → ℕ
risk_score fs = if ltb 100 (total_weight fs) then 100 else total_weight fs

-- The library's part: the decoders, what `json.Unmarshal` leaves in the synthesis when it fails, the
-- sort, and the texts of a failure.
pub record Tools : Type 0 where
  pub decode_findings : List ℕ → Option (List Finding)
  pub decode_synthesis : List ℕ → Option Synthesis
  pub partly_decoded : List ℕ → Synthesis
  pub sort : List Finding → List Finding
  pub agent_location : ℕ
  pub error_description : ℕ
  pub retry_suggestion : ℕ

module _ (tools : Tools) where
  open tools use {
    decode_findings, decode_synthesis, partly_decoded, sort, agent_location, error_description,
    retry_suggestion,
  }

  -- An agent: `none` for its error.
  abbrev pub tagged : Category → Outcome (List Finding) → Option (List Finding)
  tagged category (parsed fs) = some (map (tag category) fs)
  tagged category (api_error e) = none
  tagged category no_json = none
  tagged category (bad_json s) = none

  unfoldable pub run_agent : Category → Provider → List ℕ → Option ℕ → Option (List Finding)
  run_agent category provider source_code logs =
      tagged category
        (generate_json decode_findings (provider (agent_request category source_code logs)))

  abbrev pub error_finding : Category → Finding
  error_finding category = record {
    severity = info;
    category = category;
    location = agent_location;
    description = error_description;
    suggestion = retry_suggestion;
  }

  abbrev pub collect : Category → Option (List Finding) → List Finding
  collect category none = error_finding category ∷ []
  collect category (some fs) = fs

  unfoldable pub all_findings : Provider → List ℕ → Option ℕ → List Finding
  unfolding run_agent
  all_findings provider source_code logs =
      collect security (run_agent security provider source_code logs)
      ++ collect performance (run_agent performance provider source_code logs)
      ++ collect correctness (run_agent correctness provider source_code logs)

  -- The summary of a synthesis that failed is `none`: a text that names the error.
  abbrev pub report_of : List Finding → Outcome Synthesis → AnalysisReport
  report_of fs (parsed s) = record {
    findings = fs;
    risk_score = risk_score fs;
    summary = some s.summary;
    strengths = s.strengths;
    recommendations = s.recommendations;
  }
  report_of fs (api_error e) = record {
    findings = fs;
    risk_score = risk_score fs;
    summary = none;
    strengths = [];
    recommendations = [];
  }
  report_of fs no_json = record {
    findings = fs;
    risk_score = risk_score fs;
    summary = none;
    strengths = [];
    recommendations = [];
  }
  report_of fs (bad_json s) = record {
    findings = fs;
    risk_score = risk_score fs;
    summary = none;
    strengths = (partly_decoded s).strengths;
    recommendations = (partly_decoded s).recommendations;
  }

  -- `Analyze`, whose error is always nil.
  unfoldable pub analyze : Provider → List ℕ → Option ℕ → AnalysisReport
  unfolding all_findings risk_score
  analyze provider source_code logs =
      let fs = sort (all_findings provider source_code logs) in
      report_of fs (generate_json decode_synthesis (provider (synthesis_request fs)))
