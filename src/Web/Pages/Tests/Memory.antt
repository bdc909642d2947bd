-- ===== src/Web/Pages/Tests/Memory.antt =====
-- A browser whose every request is answered, and a cache in memory.
use jobilee.Prelude.{
  ℕ, suc, String, ◌≡◌, refl, ◌||◌, false, Option, none, some, List, [], ◌∷◌, any, arith, string_eq,
}
use jobilee.Effect.{returned}
use jobilee.Shared.Jobs.{Stage, stage_eq, saved, Job}
use jobilee.Shared.Resume.{BaseResume}
use jobilee.Web.Client.{Browser, Page}
use jobilee.Web.Queries.{Key, starts_with, QueryCache, Schemas, App}

abbrev pub job_at : String → Stage → Job
job_at id stage = record {
  id = id;
  user_id = "ann";
  company = "ACME";
  title = "Engineer";
  location = none;
  link = none;
  jd = "text";
  notes = "";
  stage = stage;
  created_at = 0;
  updated_at = 0;
}

pub record Cache : Type 0 where
  stale : List Key
  base : Option BaseResume

pub invalidate_lem :
    (k q : Key) (c : Cache)
    → any (λ p. starts_with p q) (k ∷ c.stale)
      ≡ (starts_with k q || any (λ p. starts_with p q) c.stale)
invalidate_lem k q c = ground arith

abbrev pub queries : QueryCache Cache
queries = record {
  is_stale = λ q c. any (λ k. starts_with k q) c.stale;
  base_of = λ c. c.base;
  invalidate = λ k c. record c { stale = k ∷ c.stale };
  invalidate_law = invalidate_lem;
  set_base = λ saved c. record c { base = some saved };
  set_base_law = λ saved c. refl;
}

abbrev pub browser : Browser ℕ ℕ
browser = record {
  api_base = "/api";
  fetch = λ r n. returned (record { status = 200; body_text = "7" }) (suc n);
  json = λ r n. returned 7 n;
  stringify_refresh = λ t. t;
  access_token_of = λ j. some (some "fresh");
  is_api_error = λ j. none;
}

abbrev pub schemas : Schemas ℕ ℕ
schemas = record {
  job = λ j. some (job_at "a" saved);
  job_list = λ j. none;
  job_detail = λ j. none;
  base_resume = λ j. none;
  tailored_list = λ j. none;
  resume_file = λ j. none;
  file_list = λ j. none;
  signed_url = λ j. none;
  of_create = λ b. "";
  of_update = λ b. "";
  of_stage = λ s. "";
  of_content = λ c. c;
  of_form = λ f j. "";
}

abbrev pub page : Page ℕ
page = record {
  tab = record { access_token = some "t"; stored = some "r"; storage_throws = false };
  net = 0;
}

abbrev pub app : App ℕ Cache
app = record { page = page; cache = record { stale = []; base = none } }
