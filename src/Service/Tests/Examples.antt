-- ===== src/Service/Tests/Examples.antt =====
-- The theorems on the services at concrete requests.
use authgate.Prelude.{◌+◌, ◌*◌, ◌≤◌, ◌≡◌, ◌≢◌, ◌↔◌, refl, true, some, [], ◌∷◌, codes, inl, arith}
use authgate.ClientAccess.{not_allowed}
use authgate.Storage.Settings.{User}
use authgate.Service.Step.{returns}
use authgate.Service.Store.{auto_approve, redirect_to_idp, redirect_to_client, callback_result}
use authgate.Service.Request.{
  session_too_old_for_max_age, second, access_denied_redirect, callback_result_from,
}
use authgate.Service.Callback.{complete_browser_login}
use authgate.Service.Prompts.{handle_login-silent}
use authgate.Service.Approved.{Reuses, handle_login-approved}
use authgate.Service.Approved.Mcp.{handle_mcp_login-approved}
use authgate.Service.Signup.{MayFinish, complete_browser_login-approved}
use authgate.Service.Refused.{complete_browser_login-refused_signup}
use authgate.Service.DeviceApproved.{MayApprove, handle_device_approve-approved}
use authgate.Service.MaxAge.{session_too_old_for_max_age_iff}
use authgate.Service.Tests.{
  leaving, client, request, small, from, info_of, approved, evaluated, answered,
}

handle_login-silent_example : redirect_to_client ≢ redirect_to_idp
unfolding evaluated
handle_login-silent_example =
    handle_login-silent small from "silent" "leaving" (request "browser" ("none" ∷ [])) []
      ("auth.inactive_user" ∷ []) (answered redirect_to_client "https://app.example.com/callback")
      refl refl refl (inl refl)

handle_login-approved_example : Reuses small from "browser" "browser" "leaving" []
unfolding evaluated
handle_login-approved_example =
    handle_login-approved small from "browser" "leaving" []
      ("recover" ∷ "auth.deletion_cancelled" ∷ "complete" ∷ "auth.login" ∷ []) approved refl refl

handle_mcp_login-approved_example : Reuses small from "mcp" "mcp" "alice" []
unfolding evaluated
handle_mcp_login-approved_example =
    handle_mcp_login-approved small from "mcp" "alice" [] ("complete" ∷ "auth.login" ∷ []) approved
      refl refl

complete_browser_login-approved_example :
    MayFinish small from "browser" (info_of "new" "new@example.com") []
unfolding evaluated
complete_browser_login-approved_example =
    complete_browser_login-approved small from "browser" (info_of "new" "new@example.com") []
      ("create" ∷ "auth.signup" ∷ "session" ∷ "complete" ∷ "auth.login" ∷ [])
      (callback_result auto_approve "browser" "new" "" 0) refl refl

complete_browser_login-refused_signup_example :
    complete_browser_login small from "browser" (some (info_of "new" "new@other.com")) [] ≡ (
      returns (callback_result_from (access_denied_redirect small (request "browser" []))),
      "auth.access_denied" ∷ [],
    )
unfolding evaluated
complete_browser_login-refused_signup_example =
    complete_browser_login-refused_signup small from "browser" (info_of "new" "new@other.com")
      (request "browser" []) (client "browser") [] not_allowed refl refl refl refl refl refl

abbrev stranger : User
stranger = record leaving { email = codes "alice@other.com" }

handle_device_approve-approved_example : MayApprove small from "ABCD" "approve" "alice" []
unfolding evaluated
handle_device_approve-approved_example =
    handle_device_approve-approved small from "ABCD" "approve" "alice" []
      ("approve" ∷ "auth.device_approved" ∷ [])
      (record {
        success = true;
        message =
            "You have successfully authorized the CLI application. You can close this window.";
        error_code = 0;
      })
      refl refl

session_too_old_for_max_age_iff_example :
    (session_too_old_for_max_age (some 60) (100 * second) (161 * second) ≡ true)
    ↔ (100 * second + (60 + 1) * second ≤ 161 * second)
session_too_old_for_max_age_iff_example =
    session_too_old_for_max_age_iff 60 (100 * second) (161 * second) (omega arith) (omega arith)
