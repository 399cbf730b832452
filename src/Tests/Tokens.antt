-- ===== src/Tests/Tokens.antt =====
-- The use of one callback token (src/beachops/db/repositories/callback_tokens.py).
use beachops.Base.{
  ℕ, ◌≤◌, ◌≡◌, refl, ◌&&◌, true, false, none, some, [], Text, text, text_eq, ltb, length, All, inl,
  any, ◌+◌, ◌==◌, if◌then◌else◌,
}
use beachops.Database.{Db}
use beachops.Jobs.{owned}
use beachops.Jobs.{create}
use beachops.Tokens.Steps.{here}
use beachops.Tokens.{issue_for_recipient, consume_opaque, consume, delete_expired, is_dead}
use beachops.Tokens.Once.{consume_once, issue_consume, delete_expired-unseen}
use beachops.Tests.Jobs.{one}

-- Stands for SHA-256 on tokens of different lengths.
abbrev digest : Text → ℕ
digest t = length t

abbrev key : Text
key = text "k7"

abbrev go : Text
go = text "job:approve"

abbrev issued : Db
issued = (issue_for_recipient digest one 100 7 7 1 go 60 key).1

abbrev used : Db
used = (consume_opaque digest issued 130 key 7 go).1

issue_consume_example :
    (key ≡ key)
    × (any (owned 7 1) one.jobs ≡ true)
    × ((later a : ℕ) (act : Text)
        → (consume_opaque digest issued later key a act).0
          ≡ (if (7 == a) && text_eq go act && ltb later (100 + 60) then some 1 else none))
    × ((later a k : ℕ) (act : Text)
        → (consume digest issued later key a k act).0
          ≡ ((7 == a) && text_eq go act && ltb later (100 + 60) && (1 == k)))
unfolding issue_for_recipient create
issue_consume_example = issue_consume digest one issued 100 7 7 1 go 60 key key refl

consume_once_example :
    ((consume_opaque digest used 140 key 7 go).0 ≡ none)
    × ((consume digest used 140 key 7 1 go).0 ≡ false)
unfolding issue_for_recipient consume_opaque create
consume_once_example =
    consume_once digest issued used used 130 key 7 1 go [] (refl, tt) (inl refl) here tt 140 7 1 go

delete_expired-unseen_example :
    let swept = (delete_expired used 160).1 in
    All (λ x. is_dead 160 x ≡ false) swept.callback_tokens
    × ((later a k : ℕ) (token act : Text)
        → 160 ≤ later
        → ((consume_opaque digest swept later token a act).0
            ≡ (consume_opaque digest used later token a act).0)
          × ((consume digest swept later token a k act).0
              ≡ (consume digest used later token a k act).0))
delete_expired-unseen_example = delete_expired-unseen digest used 160
