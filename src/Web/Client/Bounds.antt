-- ===== src/Web/Client/Bounds.antt =====
-- How often a call of the browser reaches the network, and what it throws.
use jobilee.Prelude.{
  ℕ, suc, ◌≤◌, ◌≡◌, refl, Bool-cases, inl, inr, String, Bool, true, false, not, ◌&&◌, Option, none,
  some, arith, ◌==◌, nat_eq, string_eq, if◌then◌else◌, ◌⊎◌,
}
use jobilee.Effect.{Outcome, returned, threw, pure, ◌>>=◌}
use jobilee.Effect.Meets.{Meets, Meets-bind, Meets-catch, Meets-mono}
use jobilee.Thrown.{Thrown, request_error, RequestError}
use jobilee.HttpClient.{Response, is_ok}
use jobilee.Web.Tokens.{get_refresh_token}
use jobilee.Web.Client.{
  RequestOptions, WebRequest, Browser, Page, in_page, outside, refresh_request, on_refresh_response,
  attempt_refresh, store_token, refresh_with, refresh_access_token, request_of, send, first_send,
  replay, refresh_and_replay, renew, settle, read_json, unwrap, api_fetch,
}

in_page-Meets :
    {N A : Type 0} (o : Outcome N A) (page : Page N) (good : A → N → Type 0)
    (bad : Thrown → N → Type 0)
    → Meets o good bad
    → Meets (in_page page.tab o) (λ a p. good a p.net) (λ e p. bad e p.net)
in_page-Meets (returned a n) page good bad h = h
in_page-Meets (threw e n) page good bad h = h

module _ {N J : Type 0} (browser : Browser N J) (sent : N → ℕ) where
  -- A fetch counts once, whether it returns or throws, and reading a body counts nothing.
  pub record CountsRequests : Type 0 where
    pub fetch_law :
        (r : WebRequest) (n : N)
        → Meets
            (browser.fetch r n)
            (λ _ n'. sent n' ≡ suc (sent n))
            (λ _ n'. sent n' ≡ suc (sent n))
    pub json_law :
        (r : Response) (n : N)
        → Meets (browser.json r n) (λ _ n'. sent n' ≡ sent n) (λ _ n'. sent n' ≡ sent n)

  abbrev pub AtMost : ℕ → Page N → Type 0
  AtMost k page = sent page.net ≤ k

  abbrev pub IsRequestError : Thrown → Type 0
  IsRequestError e = (r : RequestError) × (e ≡ request_error r)

  -- the error with which a fetch failed
  abbrev pub FetchThrew : Thrown → Type 0
  FetchThrew e = (r : WebRequest) × (n : N) × (n' : N) × (browser.fetch r n ≡ threw e n')

  fetch-FetchThrew :
      (r : WebRequest) (n : N) (o : Outcome N Response) (good : Response → N → Type 0)
      (bad : Thrown → N → Type 0)
      → browser.fetch r n ≡ o
      → Meets o good bad
      → Meets o good (λ e n'. bad e n' × FetchThrew e)
  fetch-FetchThrew r n (returned a n') good bad e h = h
  fetch-FetchThrew r n (threw f n') good bad e h = (h, (r, n, n', e))

  module _ (counts : CountsRequests) where
    fetch_lem :
        (r : WebRequest) (k : ℕ) (page : Page N)
        → AtMost k page
        → Meets (outside (browser.fetch r) page) (λ _. AtMost (suc k)) (λ _. AtMost (suc k))
    fetch_lem r k page h =
        Meets-mono (outside (browser.fetch r) page) (λ _ p. sent p.net ≡ suc (sent page.net))
          (λ _. AtMost (suc k)) (λ _ p. sent p.net ≡ suc (sent page.net)) (λ _. AtMost (suc k))
          (in_page-Meets (browser.fetch r page.net) page (λ _ n. sent n ≡ suc (sent page.net))
            (λ _ n. sent n ≡ suc (sent page.net)) (counts.fetch_law r page.net))
          (λ _ p e. omega arith) (λ _ p e. omega arith)

    json_lem :
        (r : Response) (k : ℕ) (page : Page N)
        → AtMost k page
        → Meets (outside (browser.json r) page) (λ _. AtMost k) (λ _. AtMost k)
    json_lem r k page h =
        Meets-mono (outside (browser.json r) page) (λ _ p. sent p.net ≡ sent page.net)
          (λ _. AtMost k) (λ _ p. sent p.net ≡ sent page.net) (λ _. AtMost k)
          (in_page-Meets (browser.json r page.net) page (λ _ n. sent n ≡ sent page.net)
            (λ _ n. sent n ≡ sent page.net) (counts.json_law r page.net))
          (λ _ p e. omega arith) (λ _ p e. omega arith)

    store_lem :
        (token : Option (Option String)) (k : ℕ) (page : Page N)
        → AtMost k page
        → Meets (store_token browser token page) (λ _. AtMost k) (λ _. AtMost k)
    store_lem none k page h = h
    store_lem (some token) k page h = h

    attempt_lem :
        (token : String) (k : ℕ) (page : Page N)
        → AtMost k page
        → Meets (attempt_refresh browser token page) (λ _. AtMost (suc k)) (λ _. AtMost (suc k))
    attempt_lem token k page h =
        Meets-bind (outside (browser.fetch (refresh_request browser token)))
          (on_refresh_response browser) page (λ _. AtMost (suc k)) (λ _. AtMost (suc k))
          (λ _. AtMost (suc k)) (fetch_lem (refresh_request browser token) k page h)
          (λ r p c. elim (Bool-cases (is_ok r)) [
            | inl e ↦ rw e (
                Meets-bind (outside (browser.json r)) _ p (λ _. AtMost (suc k))
                  (λ _. AtMost (suc k)) (λ _. AtMost (suc k)) (json_lem r (suc k) p c)
                  (λ v q d. store_lem (browser.access_token_of v) (suc k) q d))
            | inr e ↦ rw e c
          ])

    refresh_lem :
        (token : Option String) (k : ℕ) (page : Page N)
        → AtMost k page
        → Meets (refresh_with browser token page) (λ _. AtMost (suc k)) (λ _ _. ⊥)
    refresh_lem none k page h = omega arith
    refresh_lem (some token) k page h = elim (Bool-cases (token == "")) [
      | inl e ↦ rw e (omega arith)
      | inr e ↦ rw e (
          Meets-catch (attempt_refresh browser token) (λ _. pure false) page (λ _. AtMost (suc k))
            (λ _. AtMost (suc k)) (λ _ _. ⊥) (attempt_lem token k page h) (λ _ p c. c))
    ]

    module _ (path : String) (options : RequestOptions) where
      send_lem :
          (k : ℕ) (page : Page N)
          → AtMost k page
          → Meets
              (send browser path options page)
              (λ _. AtMost (suc k))
              (λ e p. AtMost (suc k) p × FetchThrew e)
      unfolding send
      send_lem k page h =
          let r = request_of browser path options page.tab in
          Meets-mono (send browser path options page) (λ _ p. sent p.net ≡ suc (sent page.net))
            (λ _. AtMost (suc k)) (λ e p. (sent p.net ≡ suc (sent page.net)) × FetchThrew e)
            (λ e p. AtMost (suc k) p × FetchThrew e)
            (in_page-Meets (browser.fetch r page.net) page (λ _ n. sent n ≡ suc (sent page.net))
              (λ e n. (sent n ≡ suc (sent page.net)) × FetchThrew e)
              (fetch-FetchThrew r page.net (browser.fetch r page.net)
                (λ _ n. sent n ≡ suc (sent page.net)) (λ _ n. sent n ≡ suc (sent page.net)) refl
                (counts.fetch_law r page.net)))
            (λ _ p e. omega arith) (λ _ p e. (omega arith, e.1))

      abbrev pub Fails : ℕ → Thrown → Page N → Type 0
      Fails k e p =
          AtMost k p × (IsRequestError e ⊎ ((options.skip_refresh ≡ false) × FetchThrew e))

      first_lem :
          (k : ℕ) (page : Page N)
          → AtMost k page
          → Meets (first_send browser path options page) (λ _. AtMost (suc k)) (Fails (suc k))
      unfolding first_send
      first_lem k page h =
          Meets-catch (send browser path options) _ page (λ _. AtMost (suc k))
            (λ e p. AtMost (suc k) p × FetchThrew e) (Fails (suc k)) (send_lem k page h)
            (λ e p c. (c.0, inl (_, refl)))

      replay_lem :
          (response : Response) (fresh : Bool) (k : ℕ) (page : Page N)
          → options.skip_refresh ≡ false
          → AtMost k page
          → Meets
              (replay browser path options response fresh page)
              (λ _. AtMost (suc k))
              (Fails (suc k))
      unfolding replay
      replay_lem response true k page can h =
          Meets-mono (send browser path options page) (λ _. AtMost (suc k)) (λ _. AtMost (suc k))
            (λ e p. AtMost (suc k) p × FetchThrew e) (Fails (suc k)) (send_lem k page h)
            (λ _ p c. c) (λ e p c. (c.0, inr (can, c.1)))
      replay_lem response false k page can h = omega arith

      -- with the refresh and the replay, where they are not skipped
      abbrev pub with_refresh : ℕ → ℕ
      with_refresh k = if options.skip_refresh then k else suc (suc k)

      renewing_lem :
          (response : Response) (k : ℕ) (page : Page N)
          → options.skip_refresh ≡ false
          → AtMost k page
          → Meets
              (refresh_and_replay browser path options response page)
              (λ _. AtMost (suc (suc k)))
              (Fails (suc (suc k)))
      unfolding refresh_access_token refresh_and_replay
      renewing_lem response k page can h =
          Meets-bind (refresh_access_token browser) (replay browser path options response) page
            (λ _. AtMost (suc k)) (λ _. AtMost (suc (suc k))) (Fails (suc (suc k)))
            (Meets-mono (refresh_access_token browser page) (λ _. AtMost (suc k))
              (λ _. AtMost (suc k)) (λ _ _. ⊥) (Fails (suc (suc k)))
              (refresh_lem (get_refresh_token page.tab) k page h) (λ _ p c. c) (λ _ p c. absurd c))
            (λ fresh p c. replay_lem response fresh (suc k) p can c)

      renew_lem :
          (response : Response) (k : ℕ) (page : Page N)
          → AtMost k page
          → Meets
              (renew browser path options response page)
              (λ _. AtMost (with_refresh k))
              (Fails (with_refresh k))
      renew_lem response k page h =
          elim (Bool-cases (response.status == 401 && not options.skip_refresh)) [
            | inl c ↦ rw c (
                Meets-mono (refresh_and_replay browser path options response page)
                  (λ _. AtMost (suc (suc k))) (λ _. AtMost (with_refresh k)) (Fails (suc (suc k)))
                  (Fails (with_refresh k)) (renewing_lem response k page (ground arith) h)
                  (λ _ p d. ground arith) (λ e p d. (ground arith, d.1)))
            | inr c ↦ rw c (ground arith)
          ]

      settle_lem :
          (response : Response) (k : ℕ) (page : Page N) (payload : Option J)
          → AtMost k page
          → Meets (settle browser path options response payload page) (λ _. AtMost k) (Fails k)
      settle_lem response k page payload h = elim (Bool-cases (is_ok response)) [
        | inl c ↦ rw c h
        | inr c ↦ rw c (h, inl (_, refl))
      ]

      unwrap_lem :
          (response : Response) (k : ℕ) (page : Page N)
          → AtMost k page
          → Meets (unwrap browser path options response page) (λ _. AtMost k) (Fails k)
      unwrap_lem response k page h = elim (Bool-cases (response.status == 204)) [
        | inl c ↦ rw c h
        | inr c ↦ rw c (
            Meets-bind (read_json browser path options response)
              (settle browser path options response) page (λ _. AtMost k) (λ _. AtMost k) (Fails k)
              (Meets-catch (do value ← outside (browser.json response); pure (some value))
                (λ _. pure none) page (λ _. AtMost k) (λ _. AtMost k) (Fails k)
                (Meets-bind (outside (browser.json response)) (λ v. pure (some v)) page
                  (λ _. AtMost k) (λ _. AtMost k) (λ _. AtMost k) (json_lem response k page h)
                  (λ _ p d. d))
                (λ _ p d. d))
              (λ payload p d. settle_lem response k p payload d))
      ]

      -- A call of `apiFetch` sends at most three requests (the request, one refresh and one replay),
      -- and one if the refresh is skipped. What it throws is its own `ApiError`, or else, where the
      -- refresh is not skipped, the raw error with which a fetch failed.
      pub api_fetch-AtMost :
          (page : Page N)
          → Meets
              (api_fetch browser path options page)
              (λ _. AtMost (with_refresh (suc (sent page.net))))
              (Fails (with_refresh (suc (sent page.net))))
      unfolding api_fetch
      api_fetch-AtMost page =
          let n = suc (sent page.net) in
          Meets-bind (first_send browser path options) _ page (λ _. AtMost n)
            (λ _. AtMost (with_refresh n)) (Fails (with_refresh n))
            (Meets-mono (first_send browser path options page) (λ _. AtMost n) (λ _. AtMost n)
              (Fails n) (Fails (with_refresh n)) (first_lem (sent page.net) page (omega arith))
              (λ _ p c. c) (λ e p c. (ground arith, c.1)))
            (λ response p c.
              Meets-bind (renew browser path options response) (unwrap browser path options) p
                (λ _. AtMost (with_refresh n)) (λ _. AtMost (with_refresh n))
                (Fails (with_refresh n)) (renew_lem response n p c)
                (λ answer q d. unwrap_lem answer (with_refresh n) q d))
