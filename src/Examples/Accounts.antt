-- ===== src/Examples/Accounts.antt =====
-- Accounts and the exchange with greetd at concrete inputs.
use genkan.Prelude.{
  ℕ, zero, suc, ◌==◌, Bool, true, false, none, some, List, [], ◌∷◌, ◌++◌, Text, codes, ◌≡◌, refl,
  ◌⊎◌, inl, inr,
}
use genkan.Greetd.{success, Wire, Reply, unread, answer, restart_at}
use genkan.Greetd.Requests.{IsOrdered, restart_at-IsOrdered}
use genkan.Greetd.Written.{expected}
use genkan.Greeter.State.{Account}
use genkan.Conversation.{trim_end_matches, trim_start_matches}
use genkan.Accounts.{
  Properties, pos, words_from, spaced, latest_login, preferred_account, presentation_label,
  collect_accounts,
}
use genkan.Accounts.Preferred.{IsPreferred, preferred_account-IsPreferred}
use genkan.Accounts.Collected.{IsCollected, collect_accounts-IsCollected}
use genkan.Accounts.Labels.{IsLabel, presentation_label-IsLabel}

abbrev alice : Account
alice = record { username = codes "alice"; display_name = codes "Alice"; last_login = some 30 }

abbrev bob : Account
bob = record { username = codes "bob"; display_name = codes "Bob"; last_login = some 20 }

proposed : preferred_account (bob ∷ alice ∷ []) ≡ some alice
unfolding preferred_account latest_login
proposed = refl

preferred_account-IsPreferred_example : IsPreferred alice (bob ∷ alice ∷ [])
preferred_account-IsPreferred_example =
    preferred_account-IsPreferred (bob ∷ alice ∷ []) alice proposed

-- The zero-width space.
abbrev is_format : ℕ → Bool
is_format c = c == 8203

abbrev users : List (Text ⊎ Properties)
users =
    inr (record {
      username = codes "bob";
      real_name = codes "Bob";
      system_account = false;
      locked = false;
      last_login = some (pos 20);
    })
    ∷ inl (codes "timeout")
    ∷ inr (record {
      username = codes "alice";
      real_name = codes " Alice  E. ";
      system_account = false;
      locked = false;
      last_login = none;
    })
    ∷ []

collect_accounts-IsCollected_example :
    IsCollected is_format users (collect_accounts is_format users)
collect_accounts-IsCollected_example = collect_accounts-IsCollected is_format users

labelled : presentation_label is_format (codes " Alice  E. ") ≡ some (codes "Alice E.")
unfolding presentation_label words_from spaced trim_end_matches trim_start_matches
labelled = refl

presentation_label-IsLabel_example : IsLabel is_format (codes "Alice E.")
presentation_label-IsLabel_example =
    presentation_label-IsLabel is_format (codes " Alice  E. ") (codes "Alice E.") labelled

-- The cancellation on the old connection is not answered, the other requests are.
abbrev replies : ℕ → Reply
replies zero = unread
replies (suc n) = answer success

abbrev quiet : Wire
quiet = record { tried = 1; begun = 0; written = [] }

restart_at-IsOrdered_example :
    ((restart_at true (λ _. true) replies (some 0) (codes "alice") quiet).0.written
      ≡ expected true (λ _. true) replies (some 0) (codes "alice") quiet ++ quiet.written)
    × IsOrdered
        (codes "alice")
        quiet
        (restart_at true (λ _. true) replies (some 0) (codes "alice") quiet)
restart_at-IsOrdered_example =
    restart_at-IsOrdered true (λ _. true) replies (some 0) (codes "alice") quiet
