-- ===== src/HttpClient/Bounds.antt =====
-- How often a call reaches the network, and what it throws.
use jobilee.Prelude.{
  ℕ, zero, suc, ◌+◌, ◌≤◌, ◌≡◌, refl, sym, ◌∙◌, subst, Option-cases, Bool-cases, inl, inr, Bool,
  false, not, ◌&&◌, Option, none, some, ltb, arith, ◌==◌, nat_eq,
}
use jobilee.Effect.{Action, returned, catch}
use jobilee.Thrown.{Thrown, http_error, HttpError, retryable}
use jobilee.Effect.Rules.{bind_returned}
use jobilee.Effect.Meets.{Meets, Meets-bind, Meets-catch, Meets-mono}
use jobilee.HttpClient.{
  is_idempotent, max_attempts_of, backoff_ceiling, Response, Body, Payload, FetchRequest, Network,
  CallOptions, Verdict, done, again, read_body, wait_and_retry, fail_or_retry, checked, judge,
  exchange, transport_failed, on_error, conclude, run_from, run, is_ok,
}

module _ {W J T : Type 0} (network : Network W J) (opts : CallOptions J T) (request : FetchRequest)
    (fetches : W → ℕ) where
  -- A fetch counts once, nothing else counts, and waiting does not fail.
  pub record CountsFetches : Type 0 where
    pub fetch_law :
        (r : FetchRequest) (w : W)
        → Meets
            (network.fetch r w)
            (λ _ w'. fetches w' ≡ suc (fetches w))
            (λ _ w'. fetches w' ≡ suc (fetches w))
    pub text_law :
        (r : Response) (w : W)
        → Meets (network.text r w) (λ _ w'. fetches w' ≡ fetches w) (λ _ w'. fetches w' ≡ fetches w)
    pub sleep_law :
        (ms : ℕ) (w : W)
        → (w' : W) × (network.sleep ms w ≡ returned tt w') × (fetches w' ≡ fetches w)

  abbrev IsHttp : Thrown → Type 0
  IsHttp e = (h : HttpError) × (e ≡ http_error h)

  -- the count of fetches so far
  abbrev AtCount : ℕ → W → Type 0
  AtCount n w = fetches w ≡ n

  module _ (counts : CountsFetches) where
    wait_lem :
        (attempt n : ℕ) (e : HttpError) (w : W) (bad : Thrown → W → Type 0)
        → fetches w ≡ n
        → Meets (wait_and_retry network opts request attempt e w) (λ _. AtCount n) bad
    wait_lem attempt n e w bad c =
        let (w', slept, same) = counts.sleep_law (backoff_ceiling opts.retry_base_ms attempt) w in
        subst (λ o. Meets o (λ _. AtCount n) bad)
          (sym (
            bind_returned (network.sleep (backoff_ceiling opts.retry_base_ms attempt)) _ w w' tt
              slept))
          (same ∙ c)

    fail_or_retry_lem :
        (attempt n : ℕ) (e : HttpError) (w : W)
        → fetches w ≡ n
        → Meets
            (fail_or_retry network opts request attempt e w)
            (λ _. AtCount n)
            (λ f w'. IsHttp f × AtCount n w')
    fail_or_retry_lem attempt n e w c =
        elim (Bool-cases (retryable e && ltb attempt opts.max_attempts)) [
          | inl h ↦ rw h (wait_lem attempt n e w _ c)
          | inr h ↦ rw h ((e, refl), c)
        ]

    transport_failed_lem :
        (attempt n : ℕ) (aborted : Bool) (cause : Thrown) (w : W)
        → fetches w ≡ n
        → Meets
            (transport_failed network opts request attempt aborted cause w)
            (λ _. AtCount n)
            (λ f w'. IsHttp f × AtCount n w')
    transport_failed_lem attempt n aborted cause w c =
        elim (Bool-cases (not aborted && ltb attempt opts.max_attempts)) [
          | inl h ↦ rw h (wait_lem attempt n _ w _ c)
          | inr h ↦ rw h ((_, refl), c)
        ]

    on_error_lem :
        (attempt n : ℕ) (cause : Thrown) (w : W)
        → fetches w ≡ n
        → Meets
            (on_error network opts request attempt cause w)
            (λ _. AtCount n)
            (λ f w'. IsHttp f × AtCount n w')
    unfolding on_error
    on_error_lem attempt n (http_error e) w c = ((e, refl), c)
    on_error_lem attempt n cause w c = transport_failed_lem attempt n (network.aborted w) cause w c

    read_body_lem :
        (response : Response) (n : ℕ) (w : W)
        → fetches w ≡ n
        → Meets (read_body network opts request response w) (λ _. AtCount n) (λ _. AtCount n)
    unfolding read_body
    read_body_lem response n w c =
        Meets-bind (network.text response) _ w (λ _. AtCount n) (λ _. AtCount n) (λ _. AtCount n)
          (Meets-mono _ (λ _ w'. fetches w' ≡ fetches w) (λ _. AtCount n)
            (λ _ w'. fetches w' ≡ fetches w) (λ _. AtCount n) (counts.text_law response w)
            (λ _ w' e. e ∙ c) (λ _ w' e. e ∙ c))
          (λ _ w' c'. c')

    checked_lem :
        (body : Body J) (schema : Option (Body J → Option T)) (attempt n : ℕ) (w : W)
        → fetches w ≡ n
        → Meets (checked network opts request body schema w) (λ _. AtCount n) (λ _. AtCount n)
    checked_lem body none attempt n w c = c
    checked_lem body (some schema) attempt n w c = elim (Option-cases (schema body)) [
      | inl e ↦ rw (e, checked) c
      | inr (value, e) ↦ rw (e, checked) c
    ]

    judge_lem :
        (attempt n : ℕ) (response : Response) (w : W)
        → fetches w ≡ n
        → Meets (judge network opts request attempt response w) (λ _. AtCount n) (λ _. AtCount n)
    judge_lem attempt n response w c = elim (Bool-cases (not (is_ok response))) [
      | inl h ↦ rw h (
          Meets-bind (read_body network opts request response) _ w (λ _. AtCount n) (λ _. AtCount n)
            (λ _. AtCount n) (read_body_lem response n w c)
            (λ body w' c'.
              Meets-mono _ (λ _. AtCount n) (λ _. AtCount n) (λ f w'. IsHttp f × AtCount n w')
                (λ _. AtCount n) (fail_or_retry_lem attempt n _ w' c') (λ _ _ v. v) (λ _ _ v. v.1)))
      | inr h ↦ rw h (elim (Bool-cases (response.status == 204)) [
        | inl e ↦ rw e c
        | inr e ↦ rw e (
            Meets-bind (read_body network opts request response) _ w (λ _. AtCount n)
              (λ _. AtCount n) (λ _. AtCount n) (read_body_lem response n w c)
              (λ body w' c'. checked_lem body opts.schema attempt n w' c'))
      ])
    ]

    exchange_lem :
        (attempt : ℕ) (w : W)
        → Meets
            (exchange network opts request attempt w)
            (λ _. AtCount (suc (fetches w)))
            (λ _. AtCount (suc (fetches w)))
    unfolding exchange
    exchange_lem attempt w =
        Meets-bind (network.fetch request) _ w (λ _. AtCount (suc (fetches w)))
          (λ _. AtCount (suc (fetches w))) (λ _. AtCount (suc (fetches w)))
          (counts.fetch_law request w)
          (λ response w' c. judge_lem attempt (suc (fetches w)) response w' c)

    -- a call's end: at most `n` fetches more, and only an `HttpError` gets out
    abbrev pub FetchesAtMost : ℕ → W → Payload J T → W → Type 0
    FetchesAtMost n w _ w' = fetches w' ≤ fetches w + n

    abbrev pub FailsAsHttp : ℕ → W → Thrown → W → Type 0
    FailsAsHttp n w e w' = (fetches w' ≤ fetches w + n) × IsHttp e

    conclude_lem :
        (left : ℕ) (next : HttpError → Action W (Payload J T)) (verdict : Verdict J T) (w w' : W)
        → ((e : HttpError) → Meets (next e w') (FetchesAtMost left w') (FailsAsHttp left w'))
        → AtCount (suc (fetches w)) w'
        → Meets
            (conclude network opts request next verdict w')
            (FetchesAtMost (suc left) w)
            (FailsAsHttp (suc left) w)
    conclude_lem left next (done p) w w' h c = omega arith
    conclude_lem left next (again e) w w' h c =
        Meets-mono (next e w') (FetchesAtMost left w') (FetchesAtMost (suc left) w)
          (FailsAsHttp left w') (FailsAsHttp (suc left) w) (h e) (λ _ v d. omega arith)
          (λ f v (d, http). (omega arith, http))

    run_from_lem :
        (left attempt : ℕ) (last : Option HttpError) (w : W)
        → Meets
            (run_from network opts request left attempt last w)
            (FetchesAtMost left w)
            (FailsAsHttp left w)
    unfolding run_from
    run_from_lem zero attempt last w = (omega arith, (_, refl))
    run_from_lem (suc left) attempt last w =
        Meets-bind
          (catch (exchange network opts request attempt) (on_error network opts request attempt)) _
          w (λ _. AtCount (suc (fetches w))) (FetchesAtMost (suc left) w) (FailsAsHttp (suc left) w)
          (Meets-catch (exchange network opts request attempt)
            (on_error network opts request attempt) w (λ _. AtCount (suc (fetches w)))
            (λ _. AtCount (suc (fetches w))) (FailsAsHttp (suc left) w) (exchange_lem attempt w)
            (λ e w' c.
              Meets-mono _ (λ _. AtCount (suc (fetches w))) (λ _. AtCount (suc (fetches w)))
                (λ f v. IsHttp f × AtCount (suc (fetches w)) v) (FailsAsHttp (suc left) w)
                (on_error_lem attempt (suc (fetches w)) e w' c) (λ _ _ v. v)
                (λ f v (h, d). (omega arith, h))))
          (λ verdict w' judged.
            conclude_lem left _ verdict w w' (λ e. run_from_lem left (suc attempt) (some e) w')
              judged)

    -- A call fetches at most `max_attempts` times, and whatever goes wrong, in the network, in the
    -- body or in its schema, surfaces as an `HttpError`.
    pub run-FetchesAtMost :
        (w : W)
        → Meets
            (run network opts request w)
            (FetchesAtMost opts.max_attempts w)
            (FailsAsHttp opts.max_attempts w)
    unfolding run
    run-FetchesAtMost w = run_from_lem opts.max_attempts 1 none w

    -- A POST or a PATCH that asks for no retries of its own is fetched at most once.
    pub run-once :
        (default_retries : ℕ) (w : W)
        → is_idempotent request.method ≡ false
        → opts.max_attempts ≡ max_attempts_of request.method none default_retries
        → Meets (run network opts request w) (FetchesAtMost 1 w) (FailsAsHttp 1 w)
    unfolding max_attempts_of
    run-once default_retries w unsafe attempts =
        subst (λ n. Meets (run network opts request w) (FetchesAtMost n w) (FailsAsHttp n w))
          (ground arith) (run-FetchesAtMost w)
