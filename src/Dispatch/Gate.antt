-- ===== src/Dispatch/Gate.antt =====
-- Which prompts src/beachops/services/durable_dispatch.py lets reach the workers.
use beachops.Base.{
  ℕ, ◌≡◌, refl, sym, ◌∙◌, ap, ◌⊎◌, inl, inr, Bool, true, false, not, ◌&&◌, ◌||◌, Option, none, some,
  Text, text_eq, text_in, strip, Bool-cases, Option-cases, arith,
}
use beachops.Security.{RepositoryPolicy, do_mode}
use beachops.Database.{Error, ok, raise}
use beachops.RiskPolicy.{is_high, is_main, is_change}
use beachops.RiskPolicy.Safe.{passes, is_clean, passes-assess}
use beachops.RepositoryPolicy.{require_allowed, policy_for}
use beachops.RepositoryPolicy.Writes.{require_allowed-writes}
use beachops.RiskPolicy.{assess}
use beachops.Dispatch.Outcomes.{IsHeld, IsSent, IsFailed, refuse-cases, enqueue-cases}
use beachops.Dispatch.{
  DispatchResult, Request, Services, State, job_kind, assess_request, dispatch_prompt,
}

last-true :
    (write main agent asks clean : Bool)
    → write ≡ true
    → (not (write && main) && agent && ((not write && asks) || clean)) ≡ true
    → clean ≡ true
last-true write main agent asks true w h = refl
last-true write main agent asks false w h = ground arith

module _ (sv : Services) (st : State) (now id : ℕ) (r : Request) where
  -- What a prompt must pass to be run.
  pub record IsCleared : Type 0 where
    pub no_secret : text_eq (strip (sv.redact r.prompt)) (strip r.prompt) ≡ true
    pub policy : Option RepositoryPolicy
    pub allowed :
        require_allowed sv.normalize sv.policies r.repo.github_url r.repo.default_branch
          (is_change (job_kind r.mode))
        ≡ some policy
    pub low_risk :
        passes (
          assess sv.patterns r.prompt
            (job_kind r.mode)
            (some r.repo.default_branch)
            (is_change (job_kind r.mode)))
        ≡ true

  -- What keeps a prompt from being run.
  abbrev pub IsStopped : Type 0
  IsStopped =
      (text_eq (strip (sv.redact r.prompt)) (strip r.prompt) ≡ false)
      ⊎ (require_allowed sv.normalize sv.policies r.repo.github_url r.repo.default_branch
            (is_change (job_kind r.mode))
          ≡ none)
      ⊎ (passes (
            assess sv.patterns r.prompt (job_kind r.mode) (some r.repo.default_branch)
              (is_change (job_kind r.mode)))
          ≡ false)

  -- If redaction takes nothing from a prompt, the repository's policy allows the branch, and the risk
  -- policy neither blocks it nor wants an approval, its job is in the table, queued and with the
  -- request as its payload, and is handed over once. If one of the three fails, the job is in the
  -- table, blocked and without a payload, and nothing is handed over. Either way no job that was
  -- there changes. In both cases the job cannot be created where its identifier or the actor's key
  -- is taken or the actor is no user: then the call raises, and leaves the tables and ARQ as they
  -- were.
  pub dispatch_prompt_lem :
      let out = dispatch_prompt sv st now id r in
      (IsCleared × (IsSent sv st id r out ⊎ IsFailed sv st id r out))
      ⊎ (IsStopped × (IsHeld sv st id r out ⊎ IsFailed sv st id r out))
  unfolding dispatch_prompt passes assess_request
  dispatch_prompt_lem = elim (Bool-cases (text_eq (strip (sv.redact r.prompt)) (strip r.prompt))) [
    | inr secret ↦
        inr (inl secret, rw (secret, dispatch_prompt) (refuse-cases sv st now id r _ _ _))
    | inl clean ↦
        elim (Option-cases (
          require_allowed sv.normalize sv.policies r.repo.github_url r.repo.default_branch
            (is_change (job_kind r.mode)))) [
              | inl bad ↦ inr (
                inr (inl bad),
                rw (clean, bad, dispatch_prompt) (refuse-cases sv st now id r _ _ _),
              )
              | inr (policy, allowed) ↦
                  elim (Bool-cases
                    ((assess_request sv r).is_blocked || is_high (assess_request sv r).level)) [
                      | inl risky ↦ inr (
                        inr (inr (ap not risky)),
                        rw (clean, allowed, risky, dispatch_prompt)
                            (refuse-cases sv st now id r _ _ _),
                      )
                      | inr safe ↦ inl (
                        record {
                          no_secret = clean;
                          policy = policy;
                          allowed = allowed;
                          low_risk = ap not safe;
                        },
                        rw (clean, allowed, safe, dispatch_prompt)
                            (enqueue-cases sv st now id r (assess_request sv r).level),
                      )
                    ]
            ]
  ]

  -- A prompt in DO mode that reaches the workers writes to no branch that is main or master, has none
  -- of the risk patterns once the clauses that forbid an action are taken out, and, unless the
  -- repository policies are open, names a branch that its repository's policy allows and does not
  -- protect.
  pub dispatch_prompt-writes :
      (res : DispatchResult)
      → (dispatch_prompt sv st now id r).0 ≡ ok res
      → res.enqueued ≡ true
      → r.mode ≡ do_mode
      → (is_main (some r.repo.default_branch) ≡ false)
        × (is_clean sv.patterns (sv.patterns.without_negated r.prompt) ≡ true)
        × ((n : Text) × (sv.normalize r.repo.github_url ≡ some n)
            × ((sv.policies.is_open ≡ true)
                ⊎ ((p : RepositoryPolicy) × (policy_for sv.normalize sv.policies n ≡ some p)
                    × (text_in r.repo.default_branch p.allowed_branches ≡ true)
                    × (text_in r.repo.default_branch p.protected_branches ≡ false))))
  unfolding assess_request job_kind is_change
  dispatch_prompt-writes res h enqueued mode = elim dispatch_prompt_lem [
    | inr (stopped, inl kept) ↦ absurd (unsent kept.held kept.result kept.flag)
    | inr (stopped, inr failed) ↦ absurd (raised failed.error failed.result)
    | inl (cleared, inr failed) ↦ absurd (raised failed.error failed.result)
    | inl (cleared, inl sent) ↦
        let write : is_change (job_kind r.mode) ≡ true = rw mode refl in
        let exact =
          passes-assess sv.patterns r.prompt (job_kind r.mode) (some r.repo.default_branch)
            (is_change (job_kind r.mode)) in
        let low = cleared.low_risk in
        let allowed = cleared.allowed in
        let (free, (n, url, which)) =
          require_allowed-writes sv.normalize sv.policies r.repo.github_url r.repo.default_branch
            cleared.policy (rw⁻¹ write allowed) in
        (
          free,
          last-true (is_change (job_kind r.mode)) _ _ _ _ write (sym exact ∙ low),
          (
            n,
            url,
            elim which [
              | inl open_to_all ↦ inl open_to_all
              | inr (p, same, found, ok_branch, unguarded) ↦ inr (p, found, ok_branch, unguarded)
            ],
          ),
        )
  ]
    where
      unsent :
          (other : DispatchResult)
          → (dispatch_prompt sv st now id r).0 ≡ ok other
          → other.enqueued ≡ false
          → ⊥
      unsent other e flag = ground arith

      raised : (e : Error) → (dispatch_prompt sv st now id r).0 ≡ raise e → ⊥
      raised e out = ground arith
