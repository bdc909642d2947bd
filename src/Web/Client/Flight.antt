-- ===== src/Web/Client/Flight.antt =====
-- `refreshInFlight` of apps/web/src/api/client.ts: callers of `refreshAccessToken` that run at the
-- same time, as a state and the happenings that change it.
use jobilee.Prelude.{
  ℕ, suc, ◌≡◌, refl, sym, ap, ◌∙◌, String, Bool, true, false, Bool-cases, inl, inr, Option, List,
  [], ◌∷◌, ◌++◌, map, if◌then◌else◌, ◌⊎◌,
}
use mathlib.Core.List.{append_assoc, append-nil, map-append}
use jobilee.Web.Tokens.{Tab, get_refresh_token, set_access_token, clear_tokens}
use jobilee.Web.Client.{is_set}

-- `null`, a promise that is pending, and one that is settled and not yet cleared
pub data Flight : Type 0 where
  idle pending : Flight
  landed : Bool → Flight

-- the tokens, the promise, the callers that await it, what each caller was answered, and the number of
-- refresh requests that were sent
pub record Refreshes : Type 0 where
  pub tab : Tab
  pub flight : Flight
  pub waiting : List ℕ
  pub answered : List (ℕ × Bool)
  pub requests : ℕ

-- how an attempt ends: with a payload's token, with a response that is not ok, or with an error
pub data Ending : Type 0 where
  token_given : Option String → Ending
  not_ok thrown : Ending

abbrev pub is_renewed : Ending → Bool
is_renewed (token_given _) = true
is_renewed not_ok = false
is_renewed thrown = false

unfoldable pub tokens_after : Ending → Tab → Tab
unfolding clear_tokens
tokens_after (token_given token) tab = set_access_token token tab
tokens_after not_ok tab = clear_tokens tab
tokens_after thrown tab = tab

-- a caller that has a refresh token
abbrev pub join_flight : ℕ → Flight → Refreshes → Refreshes
join_flight caller idle s = record s {
  flight = pending;
  waiting = s.waiting ++ caller ∷ [];
  requests = suc s.requests;
}
join_flight caller pending s = record s { waiting = s.waiting ++ caller ∷ [] }
join_flight caller (landed fresh) s = record s { answered = s.answered ++ (caller, fresh) ∷ [] }

unfoldable pub call : ℕ → Refreshes → Refreshes
unfolding get_refresh_token
call caller s =
    if is_set (get_refresh_token s.tab)
    then join_flight caller s.flight s
    else record s { answered = s.answered ++ (caller, false) ∷ [] }

abbrev pub answers : Bool → List ℕ → List (ℕ × Bool)
answers fresh callers = map (λ caller. (caller, fresh)) callers

-- the attempt ends, and all who await it are answered
abbrev pub land_flight : Ending → Flight → Refreshes → Refreshes
land_flight ending pending s = record {
  tab = tokens_after ending s.tab;
  flight = landed (is_renewed ending);
  waiting = [];
  answered = s.answered ++ answers (is_renewed ending) s.waiting;
  requests = s.requests;
}
land_flight ending idle s = s
land_flight ending (landed fresh) s = s

-- the `setTimeout` of the attempt's `finally`
abbrev pub clear_flight : Flight → Refreshes → Refreshes
clear_flight (landed fresh) s = record s { flight = idle }
clear_flight idle s = s
clear_flight pending s = s

pub data Happening : Type 0 where
  called : ℕ → Happening
  ended : Ending → Happening
  cleared : Happening

unfoldable pub happen : Refreshes → Happening → Refreshes
unfolding call
happen s (called caller) = call caller s
happen s (ended ending) = land_flight ending s.flight s
happen s cleared = clear_flight s.flight s

unfoldable pub happen_all : Refreshes → List Happening → Refreshes
unfolding happen
happen_all s [] = s
happen_all s (x ∷ xs) = happen_all (happen s x) xs

abbrev pub refreshes : Tab → Flight → List ℕ → List (ℕ × Bool) → ℕ → Refreshes
refreshes tab flight waiting answered requests = record {
  tab = tab;
  flight = flight;
  waiting = waiting;
  answered = answered;
  requests = requests;
}

happen_all-append :
    (s : Refreshes) (xs ys : List Happening)
    → happen_all s (xs ++ ys) ≡ happen_all (happen_all s xs) ys
unfolding happen_all
happen_all-append s [] ys = refl
happen_all-append s (x ∷ xs) ys = happen_all-append (happen s x) xs ys

module _ (tab : Tab) (n : ℕ) where
  call-pending :
      (caller : ℕ) (w : List ℕ) (a : List (ℕ × Bool))
      → is_set (get_refresh_token tab) ≡ true
      → happen (refreshes tab pending w a n) (called caller)
        ≡ refreshes tab pending (w ++ caller ∷ []) a n
  unfolding happen call
  call-pending caller w a h = rw h refl

  -- Callers that find a pending promise wait for it.
  calls-pending :
      (callers w : List ℕ) (a : List (ℕ × Bool))
      → is_set (get_refresh_token tab) ≡ true
      → happen_all (refreshes tab pending w a n) (map called callers)
        ≡ refreshes tab pending (w ++ callers) a n
  unfolding happen_all
  calls-pending [] w a h = ap (λ x. refreshes tab pending x a n) (sym (append-nil w))
  calls-pending (caller ∷ callers) w a h =
      ap (λ s. happen_all s (map called callers)) (call-pending caller w a h)
      ∙ (calls-pending callers (w ++ caller ∷ []) a h
          ∙ ap (λ x. refreshes tab pending x a n) (append_assoc w (caller ∷ []) callers))

  call-landed :
      (fresh : Bool) (caller : ℕ) (a : List (ℕ × Bool))
      → (is_set (get_refresh_token tab) ≡ true) ⊎ (fresh ≡ false)
      → happen (refreshes tab (landed fresh) [] a n) (called caller)
        ≡ refreshes tab (landed fresh) [] (a ++ (caller, fresh) ∷ []) n
  unfolding happen call
  call-landed fresh caller a (inl h) = rw h refl
  call-landed fresh caller a (inr h) = elim (Bool-cases (is_set (get_refresh_token tab))) [
    | inl c ↦ rw c refl
    | inr c ↦ rw (c, h) refl
  ]

  -- Callers that find a settled promise are answered at once.
  calls-landed :
      (fresh : Bool) (callers : List ℕ) (a : List (ℕ × Bool))
      → (is_set (get_refresh_token tab) ≡ true) ⊎ (fresh ≡ false)
      → happen_all (refreshes tab (landed fresh) [] a n) (map called callers)
        ≡ refreshes tab (landed fresh) [] (a ++ answers fresh callers) n
  unfolding happen_all
  calls-landed fresh [] a h = ap (λ x. refreshes tab (landed fresh) [] x n) (sym (append-nil a))
  calls-landed fresh (caller ∷ callers) a h =
      ap (λ s. happen_all s (map called callers)) (call-landed fresh caller a h)
      ∙ (calls-landed fresh callers (a ++ (caller, fresh) ∷ []) h
          ∙ ap (λ x. refreshes tab (landed fresh) [] x n)
              (append_assoc a ((caller, fresh) ∷ []) (answers fresh callers)))

call-idle :
    (tab : Tab) (n caller : ℕ) (a : List (ℕ × Bool))
    → is_set (get_refresh_token tab) ≡ true
    → happen (refreshes tab idle [] a n) (called caller)
      ≡ refreshes tab pending (caller ∷ []) a (suc n)
unfolding happen call
call-idle tab n caller a h = rw h refl

still_set :
    (ending : Ending) (tab : Tab)
    → is_set (get_refresh_token tab) ≡ true
    → (is_set (get_refresh_token (tokens_after ending tab)) ≡ true) ⊎ (is_renewed ending ≡ false)
unfolding tokens_after get_refresh_token
still_set (token_given token) tab h = inl h
still_set not_ok tab h = inr refl
still_set thrown tab h = inr refl

-- Callers of `refreshAccessToken` that run at the same time share one refresh request: if the page
-- has a refresh token and no refresh runs, then of any callers that call before the attempt ends, and
-- any that call between its end and its clearing, exactly one sends a request, and all of them are
-- answered the same, with the result of that attempt.
pub calls-one_request :
    (tab : Tab) (n : ℕ) (a : List (ℕ × Bool)) (caller : ℕ) (callers late : List ℕ) (ending : Ending)
    → is_set (get_refresh_token tab) ≡ true
    → happen_all
        (refreshes tab idle [] a n)
        (map called (caller ∷ callers) ++ ended ending ∷ map called late)
      ≡ refreshes
          (tokens_after ending tab)
          (landed (is_renewed ending))
          []
          (a ++ answers (is_renewed ending) (caller ∷ callers ++ late))
          (suc n)
unfolding happen_all happen
calls-one_request tab n a caller callers late ending h =
    happen_all-append (refreshes tab idle [] a n) (map called (caller ∷ callers))
      (ended ending ∷ map called late)
    ∙ (ap (λ s. happen_all (happen_all s (map called callers)) (ended ending ∷ map called late))
          (call-idle tab n caller a h)
        ∙ (ap (λ s. happen_all s (ended ending ∷ map called late))
              (calls-pending tab (suc n) callers (caller ∷ []) a h)
            ∙ (calls-landed (tokens_after ending tab) (suc n) (is_renewed ending) late
                  (a ++ answers (is_renewed ending) (caller ∷ callers)) (still_set ending tab h)
                ∙ ap
                    (λ x.
                      refreshes (tokens_after ending tab) (landed (is_renewed ending)) [] x (suc n))
                    (append_assoc a (answers (is_renewed ending) (caller ∷ callers))
                        (answers (is_renewed ending) late)
                      ∙ ap (λ x. a ++ x)
                          (sym
                            (map-append (λ c. (c, is_renewed ending)) (caller ∷ callers) late))))))
