-- ===== src/Tests/Labels.antt =====
-- A prompt that names a slot (src/beachops/services/agent_slot_naming.py), and addresses of
-- repositories (src/beachops/services/repo_parse.py).
use beachops.Base.{◌≡◌, refl, true, Text, text}
use beachops.Database.{ok, raise, index_error}
use beachops.Labels.{label_max_len, label_from_prompt, slot_button_text}
use beachops.Labels.Bounds.{IsLabel, label_from_prompt-IsLabel}
use beachops.RepoParse.{alias_from_github_url}

abbrev request : Text
request = text "[Your message]\n  Fix the\tlogin page \n\n---\n\n[Instruction] be brief"

label_from_prompt-IsLabel_example : IsLabel label_max_len (text "Fix the login page")
unfolding label_from_prompt
label_from_prompt-IsLabel_example = label_from_prompt-IsLabel request refl

button : slot_button_text 12 (text "The login page") true ≡ text "The login… ✓"
unfolding slot_button_text
button = refl

alias : alias_from_github_url (text "github.com/acme/shop.git/") ≡ ok (text "shop")
unfolding alias_from_github_url
alias = refl

-- The host is tested in lower case and looked for as it is written.
capital_host : alias_from_github_url (text "https://GitHub.com/acme/shop") ≡ raise index_error
unfolding alias_from_github_url
capital_host = refl
