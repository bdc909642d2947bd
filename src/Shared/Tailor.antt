-- ===== src/Shared/Tailor.antt =====
-- packages/shared-types/src/ai.ts, `splitTailorResult`: one document with two sections.
use jobilee.Prelude.{String, none, some, split_first, remove_first, trim}

abbrev pub gap_analysis_heading : String
gap_analysis_heading = "## Gap analysis"

abbrev pub tailored_resume_heading : String
tailored_resume_heading = "## Tailored resume"

pub record TailorResult : Type 0 where
  pub gap_analysis : String
  pub content : String

unfoldable pub split_tailor_result : String → TailorResult
unfolding split_first remove_first trim
split_tailor_result result = elim (split_first tailored_resume_heading result) [
  | none ↦ record { gap_analysis = ""; content = trim result }
  | some (before, rest) ↦ record {
    gap_analysis = trim (remove_first gap_analysis_heading before);
    content = trim rest;
  }
]
