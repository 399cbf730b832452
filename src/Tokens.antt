-- ===== src/Tokens.antt =====
-- CallbackTokenRepository, src/beachops/db/repositories/callback_tokens.py, over the table of
-- alembic/versions/012_beachops_security.py. `digest` is SHA-256, read as a number; `token` is what
-- `secrets.token_urlsafe` drew; `now` is the clock, in seconds.
pub mod Steps
pub mod Once
use beachops.Base.{
  ℕ, ◌+◌, ◌==◌, Bool, true, false, not, ◌&&◌, ◌||◌, Option, none, some, [], ◌∷◌, ◌++◌, Text,
  text_eq, is_empty, is_some, ltb, leb, length, if◌then◌else◌, any, find?, filter,
}
use beachops.Database.{
  Error, Result, ok, raise, value_error, lookup_error, unique_violation, Db, CallbackToken,
  has_user, update_returning,
}
use beachops.Jobs.{owned}

abbrev pub has_digest : ℕ → CallbackToken → Bool
has_digest d x = x.token_digest == d

-- The row that `issue_for_recipient` inserts.
abbrev pub new_token : (d recipient job_id : ℕ) → Text → (expires_at now : ℕ) → CallbackToken
new_token d recipient job_id action expires_at now = record {
  token_digest = d;
  actor_id = recipient;
  job_id = job_id;
  action = action;
  expires_at = expires_at;
  consumed_at = none;
  created_at = now;
}

-- `not action or len(action) > 100`
unfoldable pub is_bad_action : Text → Bool
unfolding is_empty
is_bad_action action = is_empty action || ltb 100 (length action)

-- `INSERT … SELECT` inserts nothing when the join is empty.
unfoldable pub issue_for_recipient :
    (Text → ℕ) → Db → (now owner recipient job_id : ℕ) → Text → ℕ → Text → Result Text × Db
unfolding is_bad_action any has_user
issue_for_recipient digest db now owner recipient job_id action ttl_sec token =
    if is_bad_action action
    then (raise value_error, db)
    else if ttl_sec == 0
    then (raise value_error, db)
    else if not (any (owned owner job_id) db.jobs && has_user db recipient)
    then (raise lookup_error, db)
    else if any (has_digest (digest token)) db.callback_tokens
    then (raise unique_violation, db)
    else (
      ok token,
      record db {
        callback_tokens =
            db.callback_tokens
            ++ new_token (digest token) recipient job_id action (now + ttl_sec) now ∷ [];
      },
    )

unfoldable pub issue :
    (Text → ℕ) → Db → (now actor_id job_id : ℕ) → Text → ℕ → Text → Result Text × Db
unfolding issue_for_recipient
issue digest db now actor_id job_id action ttl_sec token =
    issue_for_recipient digest db now actor_id actor_id job_id action ttl_sec token

-- The condition that both updates share.
unfoldable pub is_live : (now d actor_id : ℕ) → Text → CallbackToken → Bool
unfolding text_eq
is_live now d actor_id action x =
    has_digest d x
    && (x.actor_id == actor_id)
    && text_eq x.action action
    && not (is_some x.consumed_at)
    && ltb now x.expires_at

abbrev pub with_consumed : ℕ → CallbackToken → CallbackToken
with_consumed now x = record x { consumed_at = some now }

unfoldable pub consume_opaque : (Text → ℕ) → Db → ℕ → Text → ℕ → Text → Option ℕ × Db
unfolding is_live update_returning
consume_opaque digest db now token actor_id action =
    let (row, rows) =
      update_returning (is_live now (digest token) actor_id action) (with_consumed now)
        db.callback_tokens in
    (elim row [ none ↦ none | some x ↦ some x.job_id ], record db { callback_tokens = rows })

unfoldable pub consume : (Text → ℕ) → Db → ℕ → Text → (actor_id job_id : ℕ) → Text → Bool × Db
unfolding is_live update_returning
consume digest db now token actor_id job_id action =
    let (row, rows) =
      update_returning
        (λ (x : CallbackToken).
          is_live now (digest token) actor_id action x && (x.job_id == job_id))
        (with_consumed now) db.callback_tokens in
    (is_some row, record db { callback_tokens = rows })

-- `expires_at <= now() OR consumed_at IS NOT NULL`
abbrev pub is_dead : ℕ → CallbackToken → Bool
is_dead now x = leb x.expires_at now || is_some x.consumed_at

unfoldable pub delete_expired : Db → ℕ → ℕ × Db
unfolding filter
delete_expired db now = (
  length (filter (is_dead now) db.callback_tokens),
  record db { callback_tokens = filter (λ x. not (is_dead now x)) db.callback_tokens },
)
