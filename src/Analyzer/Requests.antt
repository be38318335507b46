-- ===== src/Analyzer/Requests.antt =====
-- services/ai-analyzer/cmd/main.go: how analyzeHandler answers every body, and which provider a request
-- can choose.
use quantime.Prelude.{
  take, ℕ, zero, suc, ◌≤◌, ◌<◌, ◌≡◌, refl, ap, sym, ◌⊎◌, inl, inr, none, List, [], ◌∷◌, ◌++◌,
  append-nil, ltb, arith, Bool-cases, length, ltb→lt, ltb→le,
}
use quantime.Analyzer.Agents.{Provider, AnalysisReport, Tools, analyze}
use quantime.Analyzer.Providers.{
  Client, BaseUrl, no_url, openai_url, anthropic_url, docker_host_url, local_llm_url, gemini_url,
  other_url, no_provider, openai, claude, gemini, ollama, local, other_provider, ProviderName,
  Override, override_as, override_provider, override_report_as, override_report_provider,
}
use quantime.Analyzer.Handlers.{
  Response, ok, bad_request, too_short, Body, Read, refused, read, AnalyzeRequest, read_body,
  max_source, min_source, capped, analyze_source, analyze_read, analyze_handler,
}

abbrev drop_from {ℓ} : {A : Type ℓ} → List A → ℕ → List A
drop_from [] n = []
drop_from (x ∷ xs) zero = x ∷ xs
drop_from (x ∷ xs) (suc n) = drop_from xs n

take-append : (s : List ℕ) (n : ℕ) → s ≡ take s n ++ drop_from s n
take-append [] n = refl
take-append (c ∷ cs) zero = refl
take-append (c ∷ cs) (suc n) = ap (λ l. c ∷ l) (take-append cs n)

length-take : (s : List ℕ) (n : ℕ) → n ≤ length s → length (take s n) ≡ n
length-take [] n h = omega (arith, h)
length-take (c ∷ cs) zero h = refl
length-take (c ∷ cs) (suc n) h = ap suc (length-take cs n (omega (arith, h)))

-- A beginning of the source that the analyzer accepts the length of.
pub record IsBeginning (source s : List ℕ) : Type 0 where
  pub rest : List ℕ
  pub begins : source ≡ s ++ rest
  pub long_enough : min_source ≤ length s
  pub short_enough : length s ≤ max_source

capped-IsBeginning : (s : List ℕ) → min_source ≤ length s → IsBeginning s (capped s)
capped-IsBeginning s long = elim (Bool-cases (ltb max_source (length s))) [
  | inl over ↦
      let len = length-take s max_source (omega (arith, ltb→lt max_source (length s) over)) in
      rw over record {
        rest = drop_from s max_source;
        begins = take-append s max_source;
        long_enough = omega (arith, len);
        short_enough = omega (arith, len);
      }
  | inr under ↦ rw under record {
    rest = [];
    begins = sym (append-nil s);
    long_enough = long;
    short_enough = ltb→le max_source (length s) under;
  }
]

module _ (generate : Client → Provider) (tools : Tools) (default : Client) where
  -- What analyzeHandler answers to a body that it reads as a request, or not.
  abbrev pub Answered : Read → Response AnalysisReport → Type 0
  Answered (refused r) a = a ≡ bad_request r
  Answered (read req) a =
      ((length req.source_code < min_source) × (a ≡ bad_request too_short))
      ⊎ ((s : List ℕ) × IsBeginning req.source_code s
          × (a ≡ ok (analyze tools (generate (override_provider req.override default)) s req.logs)))

  analyze_source-Answered :
      (req : AnalyzeRequest) → Answered (read req) (analyze_source generate tools default req)
  unfolding analyze_source
  analyze_source-Answered req = elim (Bool-cases (ltb (length req.source_code) min_source)) [
    | inl short ↦ inl (ltb→lt (length req.source_code) min_source short, rw short refl)
    | inr long ↦ inr (
      capped req.source_code,
      capped-IsBeginning req.source_code (ltb→le (length req.source_code) min_source long),
      rw long refl,
    )
  ]

  analyze_read-Answered : (r : Read) → Answered r (analyze_read generate tools default r)
  analyze_read-Answered (refused r) = refl
  analyze_read-Answered (read req) = analyze_source-Answered req

-- analyzeHandler answers a body that it cannot read with its reason, and a source of less than 10 bytes
-- with "too short"; any other it analyzes, by the provider that the request chooses and on a beginning of
-- the source of 10 to 100,000 bytes, and answers with the report, whatever the provider does.
pub analyze_handler-Answered :
    (generate : Client → Provider) (tools : Tools) (default : Client) (body : Body)
    → Answered generate tools default (read_body body) (analyze_handler generate tools default body)
analyze_handler-Answered generate tools default body =
    analyze_read-Answered generate tools default (read_body body)

-- An address that the code names.
abbrev pub IsNamed : BaseUrl → Type 0
IsNamed no_url = ⊥
IsNamed (other_url n) = ⊥
IsNamed openai_url = Unit
IsNamed anthropic_url = Unit
IsNamed (gemini_url m) = Unit
IsNamed docker_host_url = Unit
IsNamed local_llm_url = Unit

-- The default client, or one for an address that the code names, with no key or the request's own.
abbrev pub IsSafe : Override → Client → Client → Type 0
IsSafe o default c =
    (c ≡ default) ⊎ (IsNamed c.base_url × ((c.api_key ≡ none) ⊎ (c.api_key ≡ o.api_key)))

override_as-IsSafe :
    (o : Override) (default : Client) (name : ProviderName)
    → IsSafe o default (override_as o default name)
override_as-IsSafe o default no_provider = inl refl
override_as-IsSafe o default openai = inr (tt, inr refl)
override_as-IsSafe o default claude = inr (tt, inr refl)
override_as-IsSafe o default gemini = inr (tt, inr refl)
override_as-IsSafe o default ollama = inr (tt, inl refl)
override_as-IsSafe o default local = inr (tt, inl refl)
override_as-IsSafe o default (other_provider n) = inl refl

override_report_as-IsSafe :
    (o : Override) (default : Client) (name : ProviderName)
    → IsSafe o default (override_report_as o default name)
override_report_as-IsSafe o default no_provider = inl refl
override_report_as-IsSafe o default openai = inr (tt, inr refl)
override_report_as-IsSafe o default claude = inr (tt, inr refl)
override_report_as-IsSafe o default gemini = inr (tt, inr refl)
override_report_as-IsSafe o default ollama = inl refl
override_report_as-IsSafe o default local = inr (tt, inl refl)
override_report_as-IsSafe o default (other_provider n) = inl refl

-- Whatever a request names as its provider, model and key, all three handlers ask either the default
-- client or an address that the code names, there with the request's own key or none: no request sends
-- the server's key to another address.
pub override_provider-IsSafe :
    (o : Override) (default : Client)
    → IsSafe o default (override_provider o default)
      × IsSafe o default (override_report_provider o default)
unfolding override_provider override_report_provider
override_provider-IsSafe o default =
    (override_as-IsSafe o default o.provider, override_report_as-IsSafe o default o.provider)
