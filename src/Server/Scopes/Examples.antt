-- ===== src/Server/Scopes/Examples.antt =====
-- src/server/chat.rs: tests, and the theorems at two policies of a team.
use rs_llmctl.Base.{List, [], ◌∷◌, ◌≡◌, refl}
use rs_llmctl.Base.Map.{get, insert}
use rs_llmctl.Quota.{QuotaConfig, matching_quota_policies}
use rs_llmctl.Server.Scopes.{quota_admission_scopes, add_scopes}
use rs_llmctl.Server.Scopes.Tightest.{tightest, quota_admission_scopes-tightest}
use rs_llmctl.Server.Scopes.Clash.{policy, member}

abbrev three : List QuotaConfig
three = policy "" "red" 5 ∷ policy "ann" "red" 2 ∷ policy "bob" "red" 3 ∷ []

test-scopes :
    quota_admission_scopes three (member "ann" "red") ≡ ("subject:ann", 2) ∷ ("team:red", 3) ∷ []
unfolding quota_admission_scopes matching_quota_policies add_scopes get insert
test-scopes = refl

quota_admission_scopes-tightest_example :
    get "team:red" (quota_admission_scopes three (member "ann" "red"))
    ≡ tightest (member "ann" "red") "team:red" three
quota_admission_scopes-tightest_example =
    quota_admission_scopes-tightest three (member "ann" "red") "team:red"
