-- ===== src/Storage/Refresh/Grace.antt =====
-- When the grace lets a redeemed refresh token be redeemed again.
use authgate.Prelude.{
  ◌≡◌, refl, ◌↔◌, ℕ, ◌-◌, ◌<◌, ◌≤◌, Bool, true, false, not, ◌&&◌, Option, none, some, List, String,
  ok, arith, str_eq, any,
}
use authgate.Client.{static_refresh_grace_allowed}
use authgate.Storage.Db.{RefreshRow}
use authgate.Storage.Rows.{count, is_none, is_some_eq}
use authgate.Storage.Exec.{State, ◌>>=◌, query}
use authgate.Storage.Settings.{Settings}
use authgate.Storage.Refresh.Tables.{
  tombstoned_in, is_refresh_family_revoked, has_revoked_unredeemed_refresh_token_in_family,
  count_refresh_token_children,
}
use authgate.Storage.Refresh.Consume.{
  grace_issue, grace_by_children, grace_by_family, grace_applies, refresh_reuse_grace_decision,
}
use authgate.Storage.Refresh.Replay.{running}

-- The token was redeemed by the confidential client at most the grace before.
abbrev pub IsRecentRedemption : Settings → RefreshRow → ℕ → Type 0
IsRecentRedemption s rt at =
    (used : ℕ) × (rt.used_at ≡ some used)
    × (rt.revoked_at ≡ some used)
    × (0 < s.refresh_reuse_grace)
    × (at - used ≤ s.refresh_reuse_grace)
    × (static_refresh_grace_allowed s.registry rt.client_id ≡ true)

grace_applies-IsRecentRedemption :
    (s : Settings) (rt : RefreshRow) (at : ℕ)
    → (used revoked : Option ℕ) → rt.used_at ≡ used
    → rt.revoked_at ≡ revoked
    → (grace_applies s rt at ≡ true) ↔ IsRecentRedemption s rt at
unfolding grace_applies
grace_applies-IsRecentRedemption s rt at (some used) (some revoked) e k =
    (λ h. (used, e, ground arith, ground arith, ground arith, ground arith), λ h. ground arith)
grace_applies-IsRecentRedemption s rt at none _ e k =
    (λ h. absurd (ground arith), λ h. absurd (ground arith))
grace_applies-IsRecentRedemption s rt at (some used) none e k =
    (λ h. absurd (ground arith), λ h. absurd (ground arith))

abbrev pub revoked_unredeemed_in : String → List RefreshRow → Bool
revoked_unredeemed_in family rows =
    any (λ r. str_eq r.family_id family && not (is_none r.revoked_at) && is_none r.used_at) rows

abbrev pub children_of : String → List RefreshRow → ℕ
children_of parent rows = count (λ r. is_some_eq r.parent_id parent) rows

decision :
    (s : Settings) (rt : RefreshRow) (at : ℕ) (st : State)
    → ((refresh_reuse_grace_decision s rt at (running st)).0 ≡ ok grace_issue) ↔ (
        (grace_applies s rt at ≡ true)
        × (tombstoned_in st.tx.families rt.family_id ≡ false)
        × (revoked_unredeemed_in rt.family_id st.tx.refresh_tokens ≡ false)
        × (children_of rt.id st.tx.refresh_tokens < 3))
unfolding refresh_reuse_grace_decision grace_by_family grace_by_children is_refresh_family_revoked
    has_revoked_unredeemed_refresh_token_in_family count_refresh_token_children ◌>>=◌ query
decision s rt at st =
    (λ h. (ground arith, ground arith, ground arith, ground arith), λ h. ground arith)

-- If no statement fails, a grace child is issued exactly if the token was redeemed recently by a
-- confidential client, its family is not revoked, no token of the family was revoked without being
-- redeemed, and it has fewer than three children.
pub refresh_reuse_grace_decision-issue_iff :
    (s : Settings) (rt : RefreshRow) (at : ℕ) (st : State)
    → ((refresh_reuse_grace_decision s rt at (running st)).0 ≡ ok grace_issue) ↔ (
        IsRecentRedemption s rt at
        × (tombstoned_in st.tx.families rt.family_id ≡ false)
        × (revoked_unredeemed_in rt.family_id st.tx.refresh_tokens ≡ false)
        × (children_of rt.id st.tx.refresh_tokens < 3))
refresh_reuse_grace_decision-issue_iff s rt at st =
    let recent = grace_applies-IsRecentRedemption s rt at rt.used_at rt.revoked_at refl refl in
    let decided = decision s rt at st in
    (
      λ h. let (a, b, c, d) = decided.0 h in (recent.0 a, b, c, d),
      λ (a, b, c, d). decided.1 (recent.1 a, b, c, d),
    )
