-- ===== src/Tokens/Once.antt =====
-- What a callback token allows: src/beachops/db/repositories/callback_tokens.py.
use beachops.Base.{
  ℕ, ◌+◌, ◌==◌, ◌≤◌, ◌≡◌, refl, sym, ◌∙◌, ap, ◌≢◌, inl, inr, ◌⊎◌, Bool, true, false, not, ◌&&◌,
  none, some, List, [], ◌∷◌, ◌++◌, Text, any, find?, find?-sound, find?-append, find?-any-none,
  find?-filter, filter-All, update_where, All, All-update_where, All-map, All-find?, Distinct-find?,
  Bool-cases, Option-cases, is_some, arith, text_eq, ltb, if◌then◌else◌,
}
use beachops.Database.{Db, CallbackToken, has_user, update_returning, ok}
use beachops.Jobs.{owned}
use beachops.Tokens.{
  has_digest, new_token, is_bad_action, issue_for_recipient, is_live, with_consumed, consume_opaque,
  consume, is_dead, delete_expired,
}
use beachops.Tokens.Steps.{
  Reach, IsUnique, same_digest, same_digest_comm, IsSpentRow, IsSpent, Reach-IsSpent,
}

-- Consuming a live row spends its digest.
update-IsSpent :
    (db : Db) (p : CallbackToken → Bool) (now d : ℕ) (x : CallbackToken)
    → IsUnique db
    → find? p db.callback_tokens ≡ some x
    → has_digest d x ≡ true
    → All (IsSpentRow d) (update_where p (with_consumed now) db.callback_tokens)
update-IsSpent db p now d x u found at_d =
    All-update_where (IsSpentRow d) p (with_consumed now) db.callback_tokens (λ y e i. refl)
      (All-map (λ y. find? (same_digest y) db.callback_tokens ≡ some y)
        (λ y. p y ≡ false → IsSpentRow d y)
        (λ y first idle i.
          let ids : x.token_digest ≡ y.token_digest = ground arith in
          let same : some x ≡ some y =
            sym at_x ∙ ap (λ n. find? (has_digest n) db.callback_tokens) ids ∙ first in
          let hit : p x ≡ true = find?-sound p db.callback_tokens found in absurd (ground arith))
        db.callback_tokens firsts)
  where
    firsts : All (λ y. find? (same_digest y) db.callback_tokens ≡ some y) db.callback_tokens
    firsts = Distinct-find? same_digest db.callback_tokens (λ z. ground arith) same_digest_comm u

    at_x : find? (same_digest x) db.callback_tokens ≡ some x
    at_x =
        All-find? (λ y. find? (same_digest y) db.callback_tokens ≡ some y) p db.callback_tokens
          firsts found

-- No row of the digest is live.
IsSpent-refuses :
    (db : Db) (p : CallbackToken → Bool) (d : ℕ)
    → IsSpent d db
    → ((x : CallbackToken) → p x ≡ true → (x.token_digest ≡ d) × (is_some x.consumed_at ≡ false))
    → find? p db.callback_tokens ≡ none
IsSpent-refuses db p d spent live = elim (Option-cases (find? p db.callback_tokens)) [
  | inl nothing ↦ nothing
  | inr (x, found) ↦
      let (at_d, open_row) = live x (find?-sound p db.callback_tokens found) in
      let consumed = All-find? (IsSpentRow d) p db.callback_tokens spent found at_d in
      absurd (ground arith)
]

module _ (digest : Text → ℕ) where
  -- One of the two ways to use a token succeeds and leaves `db'`.
  abbrev pub IsUsed : Db → ℕ → Text → (actor job : ℕ) → Text → Db → Type 0
  IsUsed db now token actor job action db' =
      (consume_opaque digest db now token actor action ≡ (some job, db'))
      ⊎ (consume digest db now token actor job action ≡ (true, db'))

  IsUsed-IsSpent :
      (db db' : Db) (now : ℕ) (token : Text) (actor job : ℕ) (action : Text)
      → IsUnique db
      → IsUsed db now token actor job action db'
      → IsSpent (digest token) db'
  unfolding consume_opaque consume is_live
  IsUsed-IsSpent db db' now token actor job action u (inl e) =
      let p : CallbackToken → Bool = is_live now (digest token) actor action in
      elim (Option-cases (find? p db.callback_tokens)) [
        | inl missing ↦ absurd (ground arith)
        | inr (x, found) ↦
            let live : p x ≡ true = find?-sound p db.callback_tokens found in
            let rows : update_where p (with_consumed now) db.callback_tokens ≡ db'.callback_tokens =
              ap (λ r. r.1.callback_tokens) e in
            rw (sym rows) (update-IsSpent db p now (digest token) x u found (ground arith))
      ]
  IsUsed-IsSpent db db' now token actor job action u (inr e) =
      let p : CallbackToken → Bool =
        λ x. is_live now (digest token) actor action x && (x.job_id == job) in
      elim (Option-cases (find? p db.callback_tokens)) [
        | inl missing ↦ absurd (ground arith)
        | inr (x, found) ↦
            let live : p x ≡ true = find?-sound p db.callback_tokens found in
            let rows : update_where p (with_consumed now) db.callback_tokens ≡ db'.callback_tokens =
              ap (λ r. r.1.callback_tokens) e in
            rw (sym rows) (update-IsSpent db p now (digest token) x u found (ground arith))
      ]

  -- A token is used at most once. After `consume_opaque` or `consume` has succeeded, and whatever
  -- other tokens are issued, used or deleted, both refuse it to every actor and for every action,
  -- unless the random source draws a token of the same digest again.
  pub consume_once :
      (db db' v : Db) (now : ℕ) (token : Text) (actor job : ℕ) (action : Text) (issued : List Text)
      → IsUnique db
      → IsUsed db now token actor job action db'
      → Reach digest db' v issued
      → All (λ other. digest other ≢ digest token) issued
      → (later b k : ℕ) (act : Text)
      → ((consume_opaque digest v later token b act).0 ≡ none)
        × ((consume digest v later token b k act).0 ≡ false)
  unfolding consume_opaque consume is_live
  consume_once db db' v now token actor job action issued u used r other later b k act =
      let spent =
        Reach-IsSpent (digest token) r other
          (IsUsed-IsSpent db db' now token actor job action u used) in
      (
        ground (
          arith,
          IsSpent-refuses v (is_live later (digest token) b act) (digest token) spent
              (λ x h. (ground arith, ground arith)),
        ),
        ground (
          arith,
          IsSpent-refuses v (λ x. is_live later (digest token) b act x && (x.job_id == k))
              (digest token) spent (λ x h. (ground arith, ground arith)),
        ),
      )

  issued-row :
      (db db' : Db) (now owner recipient job : ℕ) (action : Text) (ttl : ℕ) (drawn token : Text)
      → issue_for_recipient digest db now owner recipient job action ttl drawn ≡ (ok token, db')
      → (token ≡ drawn)
        × (any (owned owner job) db.jobs ≡ true)
        × (any (has_digest (digest drawn)) db.callback_tokens ≡ false)
        × (db'.callback_tokens
            ≡ db.callback_tokens
              ++ new_token (digest drawn) recipient job action (now + ttl) now ∷ [])
  unfolding issue_for_recipient
  issued-row db db' now owner recipient job action ttl drawn token h =
      elim (Bool-cases (is_bad_action action)) [
        | inl bad ↦ absurd (ground arith)
        | inr good ↦ elim (Bool-cases (ttl == 0)) [
          | inl bad ↦ absurd (ground arith)
          | inr lasts ↦ elim (Bool-cases (any (owned owner job) db.jobs && has_user db recipient)) [
            | inr missing ↦ absurd (ground arith)
            | inl joined ↦ elim (Bool-cases (any (has_digest (digest drawn)) db.callback_tokens)) [
              | inl clash ↦ absurd (ground arith)
              | inr fresh ↦ (ground arith, ground arith, fresh, ground arith)
            ]
          ]
        ]
      ]

  -- Among rows of other digests, a test for one digest reads the row that was added last.
  find?-added :
      (xs : List CallbackToken) (d : ℕ) (p : CallbackToken → Bool) (x : CallbackToken)
      → any (has_digest d) xs ≡ false
      → ((y : CallbackToken) → p y ≡ true → has_digest d y ≡ true)
      → find? p (xs ++ x ∷ []) ≡ (if p x then some x else none)
  unfolding find?
  find?-added xs d p x fresh narrow =
      ground (arith, find?-append p xs (x ∷ []), find?-any-none p (has_digest d) xs fresh narrow)

  -- A token that is issued serves its recipient alone, for its action and its job alone, and until
  -- its time is over: each way to use it succeeds exactly there. The job is its owner's.
  pub issue_consume :
      (db db' : Db) (now owner recipient job : ℕ) (action : Text) (ttl : ℕ) (drawn token : Text)
      → issue_for_recipient digest db now owner recipient job action ttl drawn ≡ (ok token, db')
      → (token ≡ drawn)
        × (any (owned owner job) db.jobs ≡ true)
        × ((later a : ℕ) (act : Text)
            → (consume_opaque digest db' later token a act).0 ≡ (
                if (recipient == a) && text_eq action act && ltb later (now + ttl)
                then some job
                else none))
        × ((later a k : ℕ) (act : Text)
            → (consume digest db' later token a k act).0
              ≡ ((recipient == a) && text_eq action act && ltb later (now + ttl) && (job == k)))
  unfolding consume_opaque consume is_live update_returning
  issue_consume db db' now owner recipient job action ttl drawn token h =
      let (same, owns, fresh, rows) =
        issued-row db db' now owner recipient job action ttl drawn token h in
      let x = new_token (digest drawn) recipient job action (now + ttl) now in
      (
        same,
        owns,
        λ later a act.
            let p = is_live later (digest drawn) a act in
            let seen : find? p db'.callback_tokens ≡ (if p x then some x else none) =
              ap (find? p) rows
              ∙ find?-added db.callback_tokens (digest drawn) p x fresh (λ y k. ground arith) in
            elim (Bool-cases (p x)) [ inl e ↦ ground arith | inr e ↦ ground arith ],
        λ later a k act.
            let p =
              (λ (y : CallbackToken). is_live later (digest drawn) a act y && (y.job_id == k)) in
            let seen : find? p db'.callback_tokens ≡ (if p x then some x else none) =
              ap (find? p) rows
              ∙ find?-added db.callback_tokens (digest drawn) p x fresh (λ y k. ground arith) in
            elim (Bool-cases (p x)) [ inl e ↦ ground arith | inr e ↦ ground arith ],
      )

  -- `delete_expired` cannot be observed: from then on every use of a token has the answer that it
  -- would have had, and no row that is left is consumed or past its time.
  pub delete_expired-unseen :
      (db : Db) (now : ℕ)
      → let swept = (delete_expired db now).1 in
        All (λ x. is_dead now x ≡ false) swept.callback_tokens
        × ((later a k : ℕ) (token act : Text)
            → now ≤ later
            → ((consume_opaque digest swept later token a act).0
                ≡ (consume_opaque digest db later token a act).0)
              × ((consume digest swept later token a k act).0
                  ≡ (consume digest db later token a k act).0))
  unfolding delete_expired consume_opaque consume is_live update_returning
  delete_expired-unseen db now = (
    All-map (λ x. not (is_dead now x) ≡ true) (λ x. is_dead now x ≡ false) (λ x h. ground arith) _
        (filter-All (λ x. not (is_dead now x)) db.callback_tokens),
    λ later a k token act h. (
      ground (
        arith,
        find?-filter (is_live later (digest token) a act) (λ x. not (is_dead now x))
            db.callback_tokens (λ x t. ground arith),
      ),
      ground (
        arith,
        find?-filter (λ x. is_live later (digest token) a act x && (x.job_id == k))
            (λ x. not (is_dead now x)) db.callback_tokens (λ x t. ground arith),
      ),
    ),
  )
