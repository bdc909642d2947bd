-- ===== src/Ai/Prompts.antt =====
-- services/ai-service/src/generation/prompts.ts: the prompts, and the caps on what goes into them.
-- The text of a user turn is its list of UTF-16 code units, which the source counts and cuts.
use jobilee.Prelude.{
  ℕ, String, Bool, true, false, List, [], ◌∷◌, ◌++◌, length, leb, join, show, units, ◌==◌,
  string_eq, if◌then◌else◌, take,
}
use jobilee.Shared.Ai.{
  BriefInput, ResumeTailorInput, CreateTaskRequest, research, interview_prep, resume_tailor,
}

abbrev pub limit_jd : ℕ
limit_jd = 24_000

abbrev pub limit_base_resume : ℕ
limit_base_resume = 24_000

-- the note that `truncate` appends
unfoldable pub truncation_note : ℕ → List ℕ
unfolding units show
truncation_note n = units (join "" ("\n\n[…truncated at " ∷ show n ∷ " characters]" ∷ []))

unfoldable pub truncate : List ℕ → ℕ → List ℕ
truncate text n = if leb (length text) n then text else take n text ++ truncation_note n

pub record PromptSpec : Type 0 where
  pub system : String
  pub user : List ℕ
  pub web_search : Bool
  pub max_tokens : ℕ

abbrev research_system : String
research_system = join "\n" (
    "You are a research analyst preparing a candidate for a job interview."
    ∷ "Search the web for current, specific information about the company — not"
    ∷ "generic filler. Prefer primary sources and recent reporting. If you cannot"
    ∷ "verify something, say so rather than guessing; an honest gap is more useful"
    ∷ "to a candidate than a confident invention." ∷ ""
    ∷ "Respond in Markdown with exactly these sections, in this order:" ∷ "## What they do"
    ∷ "## Recent news" ∷ "## Culture & values" ∷ "## Smart questions to ask" ∷ ""
    ∷ "Under 'Smart questions to ask', give questions that show the candidate did"
    ∷ "real homework — grounded in the specific news and values you found, not"
    ∷ "questions that could be asked of any company." ∷ [])

abbrev interview_system : String
interview_system = join "\n" (
    "You are an interview coach. Prepare a candidate for a specific role,"
    ∷ "grounding every item in the job description you are given rather than in"
    ∷ "generic interview advice." ∷ ""
    ∷ "Respond in Markdown with exactly these sections, in this order:"
    ∷ "## Likely behavioral questions — give each with a STAR outline"
    ∷ "  (Situation / Task / Action / Result) the candidate can fill in."
    ∷ "## Technical questions — with sample answers at the depth this role implies."
    ∷ "## Role-specific watch-outs — where candidates for THIS role typically"
    ∷ "  stumble, drawn from what the job description emphasizes."
    ∷ "## Recruiter-call cheat sheet — concise talking points for a first screen." ∷ ""
    ∷ "Be specific to the requirements in the job description. If it emphasizes a"
    ∷ "particular skill, weight the questions toward it." ∷ [])

abbrev tailor_system : String
tailor_system = join "\n" (
    "You tailor an existing resume to a specific job description." ∷ ""
    ∷ "NEVER invent experience. You may only reframe, reorder, and reword what is"
    ∷ "already in the candidate's resume. Do not add employers, titles, dates,"
    ∷ "metrics, technologies, or accomplishments that do not appear in the source."
    ∷ "If the role wants something the candidate does not have, that belongs in the"
    ∷ "gap analysis — not in the resume." ∷ ""
    ∷ "Respond in Markdown with exactly these two sections, in this order:" ∷ "## Gap analysis"
    ∷ "  What this job asks for that the resume does not evidence, and what the"
    ∷ "  candidate genuinely has that maps to the requirements. Be honest and"
    ∷ "  specific — this section is for the candidate's eyes, not the employer's."
    ∷ "## Tailored resume"
    ∷ "  The full rewritten resume, ready to send. Keep it truthful to the source." ∷ [])

-- the line of a turn that names a job description or a resume
section : String → String → ℕ → List ℕ
unfolding truncate
section heading text cap = units heading ++ truncate (units text) cap

-- "\n" between the parts, as `join` puts it
lines : List (List ℕ) → List ℕ
lines [] = []
lines (part ∷ []) = part
lines (part ∷ next ∷ rest) = part ++ (10 ∷ lines (next ∷ rest))

unfoldable pub research_prompt : BriefInput → PromptSpec
unfolding section lines
research_prompt input = record {
  web_search = true;
  max_tokens = 8_000;
  system = research_system;
  user = lines (
      let closing = units "\nResearch this company for an upcoming interview." ∷ [] in
      (units "Company: " ++ units input.company)
      ∷ (units "Role: " ++ units input.title)
      ∷ (if input.jd == ""
          then closing
          else section "\nJob description:\n" input.jd limit_jd ∷ closing));
}

unfoldable pub interview_prep_prompt : BriefInput → PromptSpec
unfolding section lines
interview_prep_prompt input = record {
  web_search = false;
  max_tokens = 8_000;
  system = interview_system;
  user = lines (
      (units "Company: " ++ units input.company)
      ∷ (units "Role: " ++ units input.title)
      ∷ section "\nJob description:\n" input.jd limit_jd
      ∷ units "\nPrepare me for interviews for this role."
      ∷ []);
}

unfoldable pub resume_tailor_prompt : ResumeTailorInput → PromptSpec
unfolding section lines
resume_tailor_prompt input = record {
  web_search = false;
  max_tokens = 12_000;
  system = tailor_system;
  user = lines (
      (units "Company: " ++ units input.company)
      ∷ (units "Role: " ++ units input.title)
      ∷ section "\nJob description:\n" input.jd limit_jd
      ∷ section "\nMy current resume:\n" input.base_resume limit_base_resume
      ∷ units "\nTailor my resume for this role."
      ∷ []);
}

-- `GenerationService.specFor`
unfoldable pub spec_for : CreateTaskRequest → PromptSpec
unfolding research_prompt interview_prep_prompt resume_tailor_prompt
spec_for (research input) = research_prompt input
spec_for (interview_prep input) = interview_prep_prompt input
spec_for (resume_tailor input) = resume_tailor_prompt input
