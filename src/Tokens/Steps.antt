-- ===== src/Tokens/Steps.antt =====
-- The writes of src/beachops/db/repositories/callback_tokens.py as a step relation.
use beachops.Base.{
  ℕ, ◌+◌, ◌==◌, ◌≡◌, refl, ◌≢◌, inl, inr, Bool, true, false, not, ◌&&◌, List, [], ◌∷◌, ◌++◌, Text,
  any, filter, update_where, All, All-update_where, All-append, of-All-append, All-map, All-filter,
  Distinct, Distinct-update_where, Distinct-snoc, Distinct-filter, Bool-cases, is_some, arith,
}
use beachops.Database.{Db, CallbackToken, has_user}
use beachops.Jobs.{owned}
use beachops.Tokens.{
  has_digest, new_token, is_bad_action, issue_for_recipient, is_live, with_consumed, consume_opaque,
  consume, is_dead, delete_expired,
}

-- `issued` lists the tokens that the random source has drawn, the last one first.
pub data Step (digest : Text → ℕ) (db db' : Db) : List Text → Type 0 where
  issues :
      (now owner recipient job : ℕ) (action : Text) (ttl : ℕ) (token : Text)
      → db' ≡ (issue_for_recipient digest db now owner recipient job action ttl token).1
      → Step digest db db' (token ∷ [])
  consumes_opaque :
      (now : ℕ) (token : Text) (actor : ℕ) (action : Text)
      → db' ≡ (consume_opaque digest db now token actor action).1
      → Step digest db db' []
  consumes :
      (now : ℕ) (token : Text) (actor job : ℕ) (action : Text)
      → db' ≡ (consume digest db now token actor job action).1
      → Step digest db db' []
  deletes : (now : ℕ) → db' ≡ (delete_expired db now).1 → Step digest db db' []

pub data Reach (digest : Text → ℕ) (db : Db) : Db → List Text → Type 0 where
  here : Reach digest db db []
  next :
      {t u : Db} {issued drawn : List Text}
      → Reach digest db t issued
      → Step digest t u drawn
      → Reach digest db u (drawn ++ issued)

-- What the writes do to the rows: live ones are consumed, some are deleted, or a row is added whose
-- digest is new.
pub data Rewrites (digest : Text → ℕ) (db db' : Db) : List Text → Type 0 where
  same :
      {drawn : List Text} → db'.callback_tokens ≡ db.callback_tokens → Rewrites digest db db' drawn
  consumed :
      (p : CallbackToken → Bool) (now : ℕ)
      → db'.callback_tokens ≡ update_where p (with_consumed now) db.callback_tokens
      → Rewrites digest db db' []
  deleted :
      (p : CallbackToken → Bool)
      → db'.callback_tokens ≡ filter p db.callback_tokens
      → Rewrites digest db db' []
  added :
      (x : CallbackToken) (token : Text)
      → x.token_digest ≡ digest token
      → any (has_digest x.token_digest) db.callback_tokens ≡ false
      → db'.callback_tokens ≡ db.callback_tokens ++ x ∷ []
      → Rewrites digest db db' (token ∷ [])

pub Step-Rewrites :
    {digest : Text → ℕ} {t u : Db} {drawn : List Text}
    → Step digest t u drawn
    → Rewrites digest t u drawn
unfolding issue_for_recipient consume_opaque consume delete_expired
Step-Rewrites {digest} {t} (issues now owner recipient job action ttl token e) =
    elim (Bool-cases (is_bad_action action)) [
      | inl bad ↦ same (ground arith)
      | inr good ↦ elim (Bool-cases (ttl == 0)) [
        | inl bad ↦ same (ground arith)
        | inr lasts ↦ elim (Bool-cases (any (owned owner job) t.jobs && has_user t recipient)) [
          | inr missing ↦ same (ground arith)
          | inl joined ↦ elim (Bool-cases (any (has_digest (digest token)) t.callback_tokens)) [
            | inl clash ↦ same (ground arith)
            | inr fresh ↦
                added (new_token (digest token) recipient job action (now + ttl) now) token refl
                  fresh (ground arith)
          ]
        ]
      ]
    ]
Step-Rewrites {digest} (consumes_opaque now token actor action e) =
    consumed (is_live now (digest token) actor action) now (rw e)
Step-Rewrites {digest} (consumes now token actor job action e) =
    consumed (λ x. is_live now (digest token) actor action x && (x.job_id == job)) now (rw e)
Step-Rewrites (deletes now e) = deleted (λ x. not (is_dead now x)) (rw e)

abbrev pub same_digest : CallbackToken → CallbackToken → Bool
same_digest x y = has_digest x.token_digest y

pub same_digest_comm : (x y : CallbackToken) → same_digest x y ≡ same_digest y x
same_digest_comm x y = ground arith

-- The primary key.
abbrev pub IsUnique : Db → Type 0
IsUnique db = Distinct same_digest db.callback_tokens

Rewrites-IsUnique :
    {digest : Text → ℕ} {t u : Db} {drawn : List Text}
    → Rewrites digest t u drawn
    → IsUnique t
    → IsUnique u
Rewrites-IsUnique (same e) h = rw e h
Rewrites-IsUnique {t = t} (consumed p now e) h = rw e (
    Distinct-update_where same_digest p (with_consumed now) t.callback_tokens (λ x y. refl)
      (λ x y. refl) h)
Rewrites-IsUnique {t = t} (deleted p e) h = rw e (Distinct-filter same_digest p t.callback_tokens h)
Rewrites-IsUnique {t = t} (added x token d fresh e) h =
    rw e (Distinct-snoc same_digest t.callback_tokens x same_digest_comm fresh h)

pub Reach-IsUnique :
    {digest : Text → ℕ} {t u : Db} {issued : List Text}
    → Reach digest t u issued
    → IsUnique t
    → IsUnique u
Reach-IsUnique here h = h
Reach-IsUnique (next r s) h = Rewrites-IsUnique (Step-Rewrites s) (Reach-IsUnique r h)

-- The row is consumed, if its digest is `d`.
abbrev pub IsSpentRow : ℕ → CallbackToken → Type 0
IsSpentRow d x = x.token_digest ≡ d → is_some x.consumed_at ≡ true

-- Every row with the digest `d` is consumed.
abbrev pub IsSpent : ℕ → Db → Type 0
IsSpent d db = All (IsSpentRow d) db.callback_tokens

Rewrites-IsSpent :
    (d : ℕ) {digest : Text → ℕ} {t u : Db} {drawn : List Text}
    → All (λ token. digest token ≢ d) drawn
    → Rewrites digest t u drawn
    → IsSpent d t
    → IsSpent d u
Rewrites-IsSpent d other (same e) h = rw e h
Rewrites-IsSpent d {t = t} other (consumed p now e) h = rw e (
    All-update_where (IsSpentRow d) p (with_consumed now) t.callback_tokens (λ x e i. refl)
      (All-map (IsSpentRow d) (λ x. p x ≡ false → IsSpentRow d x) (λ x g e. g) t.callback_tokens h))
Rewrites-IsSpent d {t = t} other (deleted p e) h =
    rw e (All-filter (IsSpentRow d) p t.callback_tokens h)
Rewrites-IsSpent d {t = t} other (added x token e fresh rows) h = rw rows (
    All-append (IsSpentRow d) t.callback_tokens (x ∷ []) h
      ((λ i. absurd (other.0 (ground arith))), tt))

pub Reach-IsSpent :
    (d : ℕ) {digest : Text → ℕ} {t u : Db} {issued : List Text}
    → Reach digest t u issued
    → All (λ token. digest token ≢ d) issued
    → IsSpent d t
    → IsSpent d u
Reach-IsSpent d here other h = h
Reach-IsSpent d {digest} (next {issued = issued} {drawn = drawn} r s) other h =
    let (new, old) = of-All-append (λ token. digest token ≢ d) drawn issued other in
    Rewrites-IsSpent d new (Step-Rewrites s) (Reach-IsSpent d r old h)
