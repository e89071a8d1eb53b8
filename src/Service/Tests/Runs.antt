-- ===== src/Service/Tests/Runs.antt =====
-- Runs of the services over the small store.
use authgate.Prelude.{◌*◌, ◌≡◌, refl, some, [], ◌∷◌}
use authgate.Service.Step.{returns}
use authgate.Service.Store.{
  no_login, login_error, auto_approve, redirect_to_client, callback_result, callback_error,
}
use authgate.Service.Request.{second}
use authgate.Service.Login.{handle_login}
use authgate.Service.Mcp.{handle_mcp_login, complete_mcp_login}
use authgate.Service.Callback.{complete_browser_login}
use authgate.Service.Device.{
  complete_device_login, handle_device_page, page, page_error, show_approve, redirect_back,
}
use authgate.Service.Device.Approval.{handle_device_approve, not_approved}
use authgate.Service.Tests.{silently, small, from, info_of, approved, evaluated, answered}

-- Logins with the session of an account that is leaving, with no session, and with an old session.
logins :
    (handle_login small from "browser" "leaving" []
      ≡ (returns approved, "recover" ∷ "auth.deletion_cancelled" ∷ "complete" ∷ "auth.login" ∷ []))
    × (handle_login small from "silent" "leaving" [] ≡ (
      returns (answered redirect_to_client "https://app.example.com/callback"),
      "auth.inactive_user" ∷ [],
    ))
    × (handle_mcp_login small from "mcp" "leaving" []
        ≡ (returns (login_error "account_inactive" 403), "auth.inactive_user" ∷ []))
    × (handle_login small from "browser" "" []
        ≡ (returns (record no_login { auth_request_id = "browser" }), []))
    × (handle_login (record small { now = silently (161 * second) }) from "browser" "alice" [] ≡ (
      returns (record no_login { auth_request_id = "request"; upstream_prompt = "select_account" }),
      [],
    ))
    × (handle_login small from "mcp" "alice" []
        ≡ (returns (login_error "channel_mismatch" 400), "auth.channel_mismatch" ∷ []))
unfolding evaluated
logins = (refl, refl, refl, refl, refl, refl)

-- Callbacks of a new person, of an account, and of one without a request.
callbacks :
    (complete_browser_login small from "browser" (some (info_of "new" "new@example.com")) [] ≡ (
      returns (callback_result auto_approve "browser" "new" "" 0),
      "create" ∷ "auth.signup" ∷ "session" ∷ "complete" ∷ "auth.login" ∷ [],
    ))
    × (complete_browser_login small from "browser" (some (info_of "alice" "alice@example.com")) []
        ≡ (
          returns (callback_result auto_approve "browser" "new" "" 0),
          "hosted domain" ∷ "session" ∷ "complete" ∷ "auth.login" ∷ [],
        ))
    × (complete_mcp_login small from "mcp" (some (info_of "new" "new@example.com")) []
        ≡ (returns (callback_error "account_not_found" 403), []))
    × (complete_mcp_login small from "mcp" (some (info_of "alice" "alice@example.com")) [] ≡ (
      returns (callback_result auto_approve "mcp" "new" "" 0),
      "hosted domain" ∷ "session" ∷ "complete" ∷ "auth.login" ∷ [],
    ))
    × (complete_browser_login small from "lost" (some (info_of "new" "new@example.com")) []
        ≡ (returns (callback_error "auth_request_not_found" 400), []))
unfolding evaluated
callbacks = (refl, refl, refl, refl, refl)

-- The pages of the device flow.
devices :
    (handle_device_page small from "ABCD" "alice" [] ≡ (returns (page show_approve "ABCD" ""), []))
    × (handle_device_page small from "ABCD" "leaving" []
        ≡ (returns (page_error "account_inactive" 403), "auth.inactive_user" ∷ []))
    × (complete_device_login small from "ABCD" (some (info_of "alice" "alice@example.com")) [] ≡ (
      returns (page redirect_back "ABCD" "new"),
      "hosted domain" ∷ "session" ∷ "auth.login" ∷ [],
    ))
    × ((handle_device_approve small from "ABCD" "approve" "alice" []).1
        ≡ "approve" ∷ "auth.device_approved" ∷ [])
    × ((handle_device_approve small from "ABCD" "deny" "alice" []).1
        ≡ "deny" ∷ "auth.device_denied" ∷ [])
    × (handle_device_approve small from "ABCD" "" "alice" []
        ≡ (returns (not_approved "invalid action" 400), []))
unfolding evaluated
devices = (refl, refl, refl, refl, refl, refl)
